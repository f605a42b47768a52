-- ===== src/Sort/Sorted.antt =====
-- The two loops of sort_lines (sort/sort.c): they leave the lines in order.
use native.Mathlib.Decide.{dec_lt}
use u.Common.{
  ℕ, zero, suc, ◌+◌, ◌-◌, ◌/◌, ◌≤◌, ◌<◌, ◌≡◌, refl, List, ◌⊎◌, inr, arith, Safe, safe, Safe-bind,
  Safe-mono, Safe-and,
}
use u.Common.Buffer.{Buffer}
use u.Sort.{Options}
use u.Sort.Heap.{build, extract, sort_lines}
use u.Sort.Rearrange.{exchanged, swap-exchanged, Rearranged, sort_lines-Rearranged}
use u.Sort.Sift.{
  NotBefore, NotBefore-trans, NotBefore-refl, parent, IsHeapFrom, SiftInv, IsSifted, sift-IsSifted,
}

-- No line of the first `n` is before an earlier one.
abbrev pub IsSorted : Options → ℕ → (ℕ → List ℕ) → Type 0
IsSorted o n f = (i j : ℕ) → i < j → j < n → NotBefore o (f j) (f i)

-- The lines past `end` are in order, and not before those up to `end`.
abbrev TailSorted : Options → ℕ → ℕ → (ℕ → List ℕ) → Type 0
TailSorted o end n f = (i j : ℕ) → i < j → end < j → j < n → NotBefore o (f j) (f i)

root_greatest :
    (o : Options) (n k : ℕ) (f : ℕ → List ℕ) (i : ℕ)
    → IsHeapFrom o 0 n f
    → i < k
    → i < n
    → NotBefore o (f 0) (f i)
root_greatest o n zero f i h p q = absurd (omega arith)
root_greatest o n (suc k) f zero h p q = NotBefore-refl o (f 0)
root_greatest o n (suc k) f (suc i) h p q =
    NotBefore-trans o (f 0) (f (parent (suc i))) (f (suc i))
      (root_greatest o n k f (parent (suc i)) h (omega arith) (omega arith))
      (h (suc i) (omega arith) q (omega arith))

build-IsHeap :
    (o : Options) (n root : ℕ) (b : Buffer (List ℕ))
    → n ≤ b.size
    → root ≤ n
    → IsHeapFrom o root n b.at
    → Safe (λ (d : Buffer (List ℕ)). (d.size ≡ b.size) × IsHeapFrom o 0 n d.at) (build o n root b)
unfolding build
build-IsHeap o n zero b h k v = safe (refl, v)
build-IsHeap o n (suc r) b h k v =
    Safe-bind (sift-IsSifted (n + 1) o r n r b (start v) h (omega arith) (omega arith)) λ d s.
      Safe-mono (build-IsHeap o n r d (omega (arith, s.size_eq)) (omega arith) s.heap)
        λ d' t. (omega (arith, s.size_eq, t.0), t.1)
  where
    start : IsHeapFrom o (suc r) n b.at → SiftInv o r n r b.at
    start v = record {
      edges = λ c p q t u. ground (arith, v c);
      bridged = λ c p q t u w. absurd (omega arith);
    }

-- The line behind the heap takes the place of the root, which goes behind.
exchanged-root :
    (o : Options) (end : ℕ) (b : Buffer (List ℕ))
    → IsHeapFrom o 0 (suc end + 1) b.at
    → SiftInv o 0 (suc end) 0 (exchanged b 0 (suc end)).at
exchanged-root o end b h = record {
  edges = λ c p q t u. ground (arith, h c);
  bridged = λ c p q t u w. absurd (omega arith);
}

TailSorted-exchanged :
    (o : Options) (end n : ℕ) (b d : Buffer (List ℕ))
    → suc end < n
    → IsHeapFrom o 0 (suc end + 1) b.at
    → TailSorted o (suc end) n b.at
    → IsSifted o 0 (suc end) (exchanged b 0 (suc end)) d
    → TailSorted o end n d.at
TailSorted-exchanged o end n b d h v t s i j p q w = elim (dec_lt (suc end) j) [
  | yes past ↦
      let later : i < suc end → NotBefore o (b.at j) (d.at i) =
        λ z. s.bounded (b.at j) (λ k y. ground (arith, t k j, t (suc end) j)) i z in
      ground (arith, s.beyond i, s.beyond j, t i j, t 0 j, later)
  | no here ↦
      let last : NotBefore o (b.at 0) (d.at i) =
        s.bounded (b.at 0)
          (λ k y. ground (
            arith,
            root_greatest o (suc end + 1) (suc k) b.at k v,
            root_greatest o (suc end + 1) (suc (suc end)) b.at (suc end) v,
          ))
          i (omega arith) in
      ground (arith, s.beyond j, last)
]

extract-IsSorted :
    (o : Options) (end n : ℕ) (b : Buffer (List ℕ))
    → n ≡ b.size
    → (end ≡ 0) ⊎ (end < n)
    → IsHeapFrom o 0 (end + 1) b.at
    → TailSorted o end n b.at
    → Safe (λ (d : Buffer (List ℕ)). IsSorted o n d.at) (extract o end b)
unfolding extract
extract-IsSorted o zero n b e h v t = safe (λ i j p q. t i j p (omega arith) q)
extract-IsSorted o (suc end) n b e h v t =
    let inside : suc end < n = ground arith in
    Safe-bind (swap-exchanged b 0 (suc end) (omega arith) (omega arith)) λ b' w. rw w (
      Safe-bind
        (sift-IsSifted (suc end + 1) o 0 (suc end) 0 (exchanged b 0 (suc end))
          (exchanged-root o end b v) (omega arith) (omega arith) (omega arith))
        λ d s.
          extract-IsSorted o end n d (omega (arith, s.size_eq)) (inr (omega arith))
            (λ c p q z. s.heap c p (omega arith) z) (TailSorted-exchanged o end n b d inside v t s))

lines_IsSorted :
    (o : Options) (lines : Buffer (List ℕ))
    → Safe (λ (d : Buffer (List ℕ)). IsSorted o lines.size d.at) (sort_lines o lines.size lines)
unfolding sort_lines
lines_IsSorted o lines =
    Safe-bind
      (build-IsHeap o lines.size (lines.size / 2) lines (omega arith) (omega arith)
        (λ c p q t. absurd (omega arith)))
      λ heap t.
        extract-IsSorted o (lines.size - 1) lines.size heap (omega (arith, t.0)) (ground arith)
          (λ c p q z. t.1 c p (omega arith) z) (λ i j p q w. absurd (omega arith))

-- Sorting all the lines of an array, under any options, ends without an access outside the array,
-- leaves the same lines in it, as many of them satisfying any test, and leaves them in order: no
-- line is before an earlier one.
pub sort_lines-IsSorted :
    (o : Options) (lines : Buffer (List ℕ))
    → Safe
        (λ (d : Buffer (List ℕ)). Rearranged lines d × IsSorted o lines.size d.at)
        (sort_lines o lines.size lines)
sort_lines-IsSorted o lines = Safe-and (sort_lines-Rearranged o lines) (lines_IsSorted o lines)
