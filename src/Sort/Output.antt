-- ===== src/Sort/Output.antt =====
-- The lines of an input and the output of sort/sort.c (sort_buffer). Writes succeed, and a line is
-- the list of its bytes.
pub mod Lines
mod Unique
pub mod Result
use u.Common.{
  ℕ, zero, suc, ◌+◌, ◌-◌, Bool, true, false, ◌&&◌, not, Option, none, some, List, [], ◌∷◌, ◌++◌,
  ◌==◌, length, ◌>>=◌, if◌then◌else◌,
}
use u.Common.Buffer.{Buffer, read}
use u.Sort.{Options, Comparison, equal, compare_lines}
use u.Sort.Heap.{sort_lines}

-- The first loop of `sort_buffer`, with the line behind the last newline: `n` lines are stored,
-- `line` is `input[start .. i)`. none is the return of 1, when there is no room for a line.
unfoldable pub cut : ℕ → ℕ → List ℕ → List ℕ → Option (List (List ℕ))
cut max n line [] =
    if length line == 0 then some [] else (if n == max then none else some (line ∷ []))
cut max n line (b ∷ bytes) =
    let longer = cut max n (line ++ b ∷ []) bytes in
    let next = cut max (n + 1) [] bytes in
    if b == b'\n'
    then (if n == max then none else (do lines ← next; some (line ∷ lines)))
    else longer

-- The line `i` of a list, and no bytes past its end.
unfoldable pub line_at : List (List ℕ) → ℕ → List ℕ
line_at [] i = []
line_at (l ∷ ls) zero = l
line_at (l ∷ ls) (suc i) = line_at ls i

-- The array `lines`.
abbrev pub stored : List (List ℕ) → Buffer (List ℕ)
stored ls = record { size = length ls; at = line_at ls }

unfoldable pub is_equal : Comparison → Bool
is_equal equal = true
is_equal _ = false

-- `o->unique && i && compare_lines(&lines[i - 1], &lines[i], input, o) == 0`
unfoldable pub repeats : Options → Buffer (List ℕ) → ℕ → Option Bool
repeats o lines i =
    if o.unique && not (i == 0)
    then (do x ← read lines (i - 1); y ← read lines i; some (is_equal (compare_lines o x y)))
    else some false

-- The last loop of `sort_buffer` from line `i`, with the rounds left: the bytes that it writes.
unfoldable pub write_lines : Options → Buffer (List ℕ) → ℕ → ℕ → Option (List ℕ)
write_lines o lines i zero = some []
write_lines o lines i (suc rounds) = do
  skip ← repeats o lines i
  line ← read lines i
  rest ← write_lines o lines (i + 1) rounds
  some (if skip then rest else line ++ b'\n' ∷ rest)

-- The rest of `sort_buffer`: the status, with the bytes that were written.
unfoldable pub sort_cut : Options → Option (List (List ℕ)) → Option (ℕ × List ℕ)
sort_cut o none = some (1, [])
sort_cut o (some ls) = do
  sorted ← sort_lines o (length ls) (stored ls)
  out ← write_lines o sorted 0 (length ls)
  some (0, out)

unfoldable pub sort_buffer : Options → ℕ → List ℕ → Option (ℕ × List ℕ)
sort_buffer o max_lines input = sort_cut o (cut max_lines 0 [] input)

-- `nlines` in main: the newlines of the input, and one more where its last byte is none.
unfoldable pub newlines : List ℕ → ℕ
newlines [] = 0
newlines (b ∷ bytes) = if b == b'\n' then newlines bytes + 1 else newlines bytes

unfoldable pub unfinished : List ℕ → Bool
unfinished [] = false
unfinished (b ∷ []) = not (b == b'\n')
unfinished (b ∷ c ∷ bytes) = unfinished (c ∷ bytes)

unfoldable pub count_lines : List ℕ → ℕ
count_lines input = if unfinished input then newlines input + 1 else newlines input
