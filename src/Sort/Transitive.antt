-- ===== src/Sort/Transitive.antt =====
-- The comparison of sort/sort.c is transitive, whatever the options.
use u.Common.{
  ℕ, ◌≡◌, refl, Bool, true, false, not, List, [], ◌∷◌, arith, ltb, ◌==◌, length, if◌then◌else◌,
  Bool-cases, inl, inr,
}
use u.Sort.{
  Options, Comparison, less, equal, greater, negate, compare_bytes, compare_text, compare_digits,
  compare_signed, differ, compare_number, number, compare_lines, skip_blanks, signed_result,
}
use u.Sort.Heap.{is_less}
use u.Sort.Order.{compare_lines-negate, compare_digits-negate, negate-negate}

-- `r` is not less
abbrev pub AtLeast : Comparison → Type 0
AtLeast r = is_less r ≡ false

compare_bytes_trans :
    (f : Bool) (xs ys zs : List ℕ)
    → AtLeast (compare_bytes f xs ys)
    → AtLeast (compare_bytes f ys zs)
    → AtLeast (compare_bytes f xs zs)
unfolding compare_bytes is_less
compare_bytes_trans f [] [] zs h k = k
compare_bytes_trans f [] (y ∷ ys) zs h k = ground arith
compare_bytes_trans f (x ∷ xs) [] [] h k = refl
compare_bytes_trans f (x ∷ xs) [] (z ∷ zs) h k = ground arith
compare_bytes_trans f (x ∷ xs) (y ∷ ys) [] h k = refl
compare_bytes_trans f (x ∷ xs) (y ∷ ys) (z ∷ zs) h k =
    ground (arith, compare_bytes_trans f xs ys zs)

compare_digits_trans :
    (xs ys zs : List ℕ)
    → length xs ≡ length ys
    → length ys ≡ length zs
    → AtLeast (compare_digits xs ys)
    → AtLeast (compare_digits ys zs)
    → AtLeast (compare_digits xs zs)
unfolding compare_digits is_less
compare_digits_trans [] [] [] d e h k = refl
compare_digits_trans [] [] (z ∷ zs) d e h k = refl
compare_digits_trans [] (y ∷ ys) zs d e h k = absurd (omega arith)
compare_digits_trans (x ∷ xs) [] zs d e h k = absurd (omega arith)
compare_digits_trans (x ∷ xs) (y ∷ ys) [] d e h k = refl
compare_digits_trans (x ∷ xs) (y ∷ ys) (z ∷ zs) d e h k =
    let ih = compare_digits_trans xs ys zs (omega arith) (omega arith) in ground (arith, ih)

-- Two numbers of one sign, when that is not a minus: by their lengths, then by their digits.
magnitude : List ℕ → List ℕ → Comparison
magnitude xs ys =
    if not (length xs == length ys)
    then (if ltb (length xs) (length ys) then less else greater)
    else compare_digits xs ys

magnitude-negate : (xs ys : List ℕ) → magnitude ys xs ≡ negate (magnitude xs ys)
unfolding magnitude negate
magnitude-negate xs ys = ground (arith, compare_digits-negate xs ys)

magnitude_trans :
    (xs ys zs : List ℕ)
    → AtLeast (magnitude xs ys)
    → AtLeast (magnitude ys zs)
    → AtLeast (magnitude xs zs)
unfolding magnitude is_less
magnitude_trans xs ys zs h k = ground (arith, compare_digits_trans xs ys zs)

negative : (xs ys : List ℕ) → compare_signed (true, xs) (true, ys) ≡ magnitude ys xs
unfolding compare_signed magnitude signed_result differ negate
negative xs ys = ground (arith, compare_digits-negate xs ys)

positive : (xs ys : List ℕ) → compare_signed (false, xs) (false, ys) ≡ magnitude xs ys
unfolding compare_signed magnitude signed_result differ
positive xs ys = ground arith

signed_trans :
    (a b c : Bool) (xs ys zs : List ℕ)
    → AtLeast (compare_signed (a, xs) (b, ys))
    → AtLeast (compare_signed (b, ys) (c, zs))
    → AtLeast (compare_signed (a, xs) (c, zs))
unfolding compare_signed differ is_less
signed_trans true true true xs ys zs h k =
    rw (negative xs zs)
      (magnitude_trans zs ys xs (rw (negative ys zs) at k) (rw (negative xs ys) at h))
signed_trans true true false xs ys zs h k = cc
signed_trans true false c xs ys zs h k = cc
signed_trans false true true xs ys zs h k = refl
signed_trans false true false xs ys zs h k = cc
signed_trans false false true xs ys zs h k = refl
signed_trans false false false xs ys zs h k =
    rw (positive xs zs)
      (magnitude_trans xs ys zs (rw (positive xs ys) at h) (rw (positive ys zs) at k))

compare_text_trans :
    (o : Options) (a b c : List ℕ)
    → AtLeast (compare_text o a b)
    → AtLeast (compare_text o b c)
    → AtLeast (compare_text o a c)
unfolding compare_text
compare_text_trans o a b c h k = ground (
  arith,
  compare_bytes_trans o.fold_case a b c,
  compare_bytes_trans o.fold_case (skip_blanks a) (skip_blanks b) (skip_blanks c),
)

-- The result before `-r`.
forward : Options → List ℕ → List ℕ → Comparison
forward o a b = if o.numeric then compare_number a b else compare_text o a b

forward_trans :
    (o : Options) (a b c : List ℕ)
    → AtLeast (forward o a b)
    → AtLeast (forward o b c)
    → AtLeast (forward o a c)
unfolding forward compare_number
forward_trans o a b c h k = ground (
  arith,
  compare_text_trans o a b c,
  signed_trans (number a).0 (number b).0 (number c).0 (number a).1 (number b).1 (number c).1,
)

kept : (o : Options) (a b : List ℕ) → o.reverse ≡ false → compare_lines o a b ≡ forward o a b
unfolding compare_lines forward
kept o a b e = ground (arith, e)

reversed : (o : Options) (a b : List ℕ) → o.reverse ≡ true → compare_lines o a b ≡ forward o b a
unfolding compare_lines forward
reversed o a b e = ground (arith, e, compare_lines-negate o b a, negate-negate (forward o b a))

-- A line that is not before a second one, which is not before a third one, is not before the third,
-- under all options.
pub compare_lines_trans :
    (o : Options) (a b c : List ℕ)
    → AtLeast (compare_lines o a b)
    → AtLeast (compare_lines o b c)
    → AtLeast (compare_lines o a c)
compare_lines_trans o a b c h k = elim (Bool-cases o.reverse) [
  | inl e ↦
      rw (reversed o a c e)
        (forward_trans o c b a (rw (reversed o b c e) at k) (rw (reversed o a b e) at h))
  | inr e ↦
      rw (kept o a c e) (forward_trans o a b c (rw (kept o a b e) at h) (rw (kept o b c e) at k))
]

-- Of two lines that are not in order, the other order holds.
pub compare_lines_total :
    (o : Options) (a b : List ℕ)
    → is_less (compare_lines o a b) ≡ true
    → AtLeast (compare_lines o b a)
unfolding is_less negate
compare_lines_total o a b h = rw (compare_lines-negate o a b) (go (compare_lines o a b) h)
  where
    go : (r : Comparison) → is_less r ≡ true → AtLeast (negate r)
    go less e = refl
    go equal e = cc
    go greater e = cc

pub compare_lines_refl : (o : Options) (a : List ℕ) → AtLeast (compare_lines o a a)
unfolding is_less negate
compare_lines_refl o a = go (compare_lines o a a) (compare_lines-negate o a a)
  where
    go : (r : Comparison) → r ≡ negate r → AtLeast r
    go less e = cc
    go equal e = refl
    go greater e = refl
