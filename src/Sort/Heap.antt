-- ===== src/Sort/Heap.antt =====
-- The heapsort of sort/sort.c (sort_lines). An access outside the lines, or a loop that has used up
-- its fuel, is `none`.
use u.Common.{
  ℕ, zero, suc, ◌+◌, ◌-◌, ◌*◌, ◌/◌, Bool, true, false, Option, none, some, List, ltb, leb,
  if◌then◌else◌, ◌>>=◌,
}
use u.Common.Buffer.{Buffer, read, write}
use u.Sort.{Options, Comparison, compare_lines}

unfoldable pub is_less : Comparison → Bool
is_less Comparison.less = true
is_less _ = false

-- The child to compare with: the second one where it is there and is greater.
unfoldable pub pick_child : Options → Buffer (List ℕ) → ℕ → ℕ → Option ℕ
pick_child o b n child =
    if ltb (child + 1) n
    then (do
      x ← read b child
      y ← read b (child + 1)
      some (if is_less (compare_lines o x y) then child + 1 else child))
    else some child

unfoldable pub swap : Buffer (List ℕ) → ℕ → ℕ → Option (Buffer (List ℕ))
swap b i j = do x ← read b i; y ← read b j; b' ← write b i y; write b' j x

-- The inner loop of `sort_lines` from node `r` of a heap of `n`. The node number grows in each round.
unfoldable pub sift : ℕ → Options → ℕ → ℕ → Buffer (List ℕ) → Option (Buffer (List ℕ))
sift zero o n r b = none
sift (suc fuel) o n r b = if leb n (r * 2 + 1) then some b else (do
  child ← pick_child o b n (r * 2 + 1)
  x ← read b r
  y ← read b child
  if is_less (compare_lines o x y)
      then (do b' ← swap b r child; sift fuel o n child b')
      else some b)

-- The first loop: the nodes below `root`, from the last one down.
unfoldable pub build : Options → ℕ → ℕ → Buffer (List ℕ) → Option (Buffer (List ℕ))
build o n zero b = some b
build o n (suc r) b = do b' ← sift (n + 1) o n r b; build o n r b'

-- The second loop, while `end` is above 1: `end + 1` lines are still a heap.
unfoldable pub extract : Options → ℕ → Buffer (List ℕ) → Option (Buffer (List ℕ))
extract o zero b = some b
extract o (suc end) b = do
  b' ← swap b 0 (suc end)
  b'' ← sift (suc end + 1) o (suc end) 0 b'
  extract o end b''

unfoldable pub sort_lines : Options → ℕ → Buffer (List ℕ) → Option (Buffer (List ℕ))
sort_lines o n lines = do heap ← build o n (n / 2) lines; extract o (n - 1) heap
