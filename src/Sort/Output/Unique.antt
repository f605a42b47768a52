-- ===== src/Sort/Output/Unique.antt =====
-- The lines that sort/sort.c writes with -u (sort_buffer): strictly in order, and one for each line.
use native.Mathlib.Decide.{dec_lt}
use mathlib.Core.List.{Mem, mem-cons_self, mem-cons_of_mem}
use u.Common.{
  ℕ, zero, suc, ◌+◌, ◌-◌, ◌≤◌, ◌<◌, ◌≡◌, refl, true, false, List, [], ◌∷◌, arith, Bool-cases, inl,
  inr, All, if_cases,
}
use u.Sort.{Options, Comparison, compare_lines, less, equal, greater, negate}
use u.Sort.Heap.{is_less}
use u.Sort.Order.{compare_lines-negate}
use u.Sort.Transitive.{AtLeast, compare_lines_trans, compare_lines_refl}
use u.Sort.Sift.{NotBefore, NotBefore-refl}
use u.Sort.Sorted.{IsSorted}
use u.Sort.Output.{is_equal}
use u.Sort.Output.Lines.{skipped, kept_lines}

-- Line `a` is before line `b`.
unfoldable pub Before : Options → List ℕ → List ℕ → Type 0
Before o a b = is_less (compare_lines o a b) ≡ true

-- Every line is before all the later ones.
abbrev pub IsIncreasing : Options → List (List ℕ) → Type 0
IsIncreasing o [] = Unit
IsIncreasing o (l ∷ ls) = All (Before o l) ls × IsIncreasing o ls

settled_equal :
    (r : Comparison) → is_less r ≡ false → is_less (negate r) ≡ false → is_equal r ≡ true
unfolding is_less negate is_equal
settled_equal less h k = cc
settled_equal equal h k = refl
settled_equal greater h k = cc

-- What follows a line that differs from its predecessor, in a sorted array, is after all before it.
Before-later :
    (o : Options) (a b c : List ℕ)
    → NotBefore o b a
    → NotBefore o c b
    → is_equal (compare_lines o b c) ≡ false
    → Before o a c
unfolding NotBefore Before
Before-later o a b c h k d = elim (Bool-cases (is_less (compare_lines o a c))) [
  | inl e ↦ e
  | inr e ↦ absurd (
      let r = compare_lines_trans o b a c h e in
      let t = settled_equal (compare_lines o b c) r (rw (compare_lines-negate o b c) at k) in cc)
]

not_skipped :
    (o : Options) (f : ℕ → List ℕ) (i : ℕ)
    → o.unique ≡ true
    → 0 < i
    → skipped o f i ≡ false
    → is_equal (compare_lines o (f (i - 1)) (f i)) ≡ false
unfolding skipped
not_skipped o f i u p e = ground (arith, e, u)

skipped_equal :
    (o : Options) (f : ℕ → List ℕ) (i : ℕ)
    → skipped o f i ≡ true
    → is_equal (compare_lines o (f (i - 1)) (f i)) ≡ true
unfolding skipped
skipped_equal o f i e = ground (arith, e)

All-kept_lines :
    (o : Options) (f : ℕ → List ℕ) (n k i rounds : ℕ)
    → o.unique ≡ true
    → IsSorted o n f
    → k < i
    → i + rounds ≤ n
    → All (Before o (f k)) (kept_lines o f i rounds)
unfolding kept_lines
All-kept_lines o f n k i zero u s h l = tt
All-kept_lines o f n k i (suc rounds) u s h l =
    let rest = All-kept_lines o f n k (i + 1) rounds u s (omega arith) (omega arith) in
    if_cases (All (Before o (f k))) (skipped o f i) (λ e. rest)
      (λ e. (
        Before-later o (f k) (f (i - 1)) (f i) (ground (arith, s k (i - 1), NotBefore-refl o (f k)))
            (s (i - 1) i (omega arith) (omega arith)) (not_skipped o f i u (omega arith) e),
        rest,
      ))

pub kept_lines-IsIncreasing :
    (o : Options) (f : ℕ → List ℕ) (n i rounds : ℕ)
    → o.unique ≡ true
    → IsSorted o n f
    → i + rounds ≤ n
    → IsIncreasing o (kept_lines o f i rounds)
unfolding kept_lines
kept_lines-IsIncreasing o f n i zero u s l = tt
kept_lines-IsIncreasing o f n i (suc rounds) u s l =
    let rest = kept_lines-IsIncreasing o f n (i + 1) rounds u s (omega arith) in
    if_cases (IsIncreasing o) (skipped o f i) (λ e. rest)
      (λ e. (All-kept_lines o f n i (i + 1) rounds u s (omega arith) (omega arith), rest))

equal_least : (r : Comparison) → is_equal r ≡ true → AtLeast r × AtLeast (negate r)
unfolding is_less negate is_equal
equal_least less h = cc
equal_least equal h = (refl, refl)
equal_least greater h = cc

-- Line `a` compares equal to line `b`.
unfoldable pub SameLine : Options → List ℕ → List ℕ → Type 0
SameLine o a b = is_equal (compare_lines o a b) ≡ true

SameLine-trans : (o : Options) (a b c : List ℕ) → SameLine o a b → SameLine o b c → SameLine o a c
unfolding SameLine
SameLine-trans o a b c h k =
    let (h1, h2) = equal_least (compare_lines o a b) h in
    let (k1, k2) = equal_least (compare_lines o b c) k in
    settled_equal (compare_lines o a c) (compare_lines_trans o a b c h1 k1) (
      rw (← compare_lines-negate o a c) (
        compare_lines_trans o c b a (rw (compare_lines-negate o b c) k2)
          (rw (compare_lines-negate o a b) h2)))

SameLine-refl : (o : Options) (a : List ℕ) → SameLine o a a
unfolding SameLine
SameLine-refl o a =
    let e = compare_lines_refl o a in
    settled_equal (compare_lines o a a) e (rw (← compare_lines-negate o a a) e)

Mem-kept_lines :
    (o : Options) (f : ℕ → List ℕ) (k i rounds : ℕ)
    → i ≤ k
    → k < i + rounds
    → skipped o f k ≡ false
    → Mem (f k) (kept_lines o f i rounds)
unfolding kept_lines
Mem-kept_lines o f k i zero h l e = absurd (omega arith)
Mem-kept_lines o f k i (suc rounds) h l e = elim (dec_lt i k) [
  | yes d ↦
      let m = Mem-kept_lines o f k (i + 1) rounds (omega arith) (omega arith) e in
      if_cases (Mem (f k)) (skipped o f i) (λ _. m) (λ _. mem-cons_of_mem _ m)
  | no d ↦ let here : i ≡ k = omega arith in rw (here, e) mem-cons_self
]

first_kept : (o : Options) (f : ℕ → List ℕ) → skipped o f 0 ≡ false
unfolding skipped
first_kept o f = ground arith

skipped-SameLine :
    (o : Options) (f : ℕ → List ℕ) (k : ℕ)
    → skipped o f (suc k) ≡ true
    → SameLine o (f k) (f (suc k))
unfolding SameLine
skipped-SameLine o f k e =
    let d : suc k - 1 ≡ k = omega arith in rw d at (skipped_equal o f (suc k) e)

-- A line that is written for line `k`.
abbrev pub HasSame : Options → List (List ℕ) → List ℕ → Type 0
HasSame o ls l = (x : List ℕ) × Mem x ls × SameLine o x l

pub kept_lines-HasSame :
    (o : Options) (f : ℕ → List ℕ) (n k : ℕ) → k < n → HasSame o (kept_lines o f 0 n) (f k)
kept_lines-HasSame o f n zero h = (
  f 0,
  Mem-kept_lines o f 0 0 n (omega arith) (omega arith) (first_kept o f),
  SameLine-refl o (f 0),
)
kept_lines-HasSame o f n (suc k) h = elim (Bool-cases (skipped o f (suc k))) [
  | inl e ↦
      let (x, m, s) = kept_lines-HasSame o f n k (omega arith) in
      (x, m, SameLine-trans o x (f k) (f (suc k)) s (skipped-SameLine o f k e))
  | inr e ↦ (
    f (suc k),
    Mem-kept_lines o f (suc k) 0 n (omega arith) (omega arith) e,
    SameLine-refl o (f (suc k)),
  )
]
