-- ===== src/Sort/Order.antt =====
-- The comparison of sort/sort.c is an order: it is antisymmetric whatever the options.
use u.Common.{ℕ, ◌≡◌, refl, Bool, true, false, List, [], ◌∷◌, arith}
use u.Sort.{
  Options, Comparison, less, equal, greater, negate, compare_bytes, compare_text, compare_digits,
  compare_signed, differ, compare_number, number, compare_lines, skip_blanks, signed_result,
}

pub negate-negate : (r : Comparison) → negate (negate r) ≡ r
unfolding negate
negate-negate less = refl
negate-negate equal = refl
negate-negate greater = refl

pub compare_bytes-negate :
    (f : Bool) (xs ys : List ℕ) → compare_bytes f ys xs ≡ negate (compare_bytes f xs ys)
unfolding compare_bytes negate
compare_bytes-negate f [] [] = refl
compare_bytes-negate f [] (y ∷ ys) = refl
compare_bytes-negate f (x ∷ xs) [] = refl
compare_bytes-negate f (x ∷ xs) (y ∷ ys) = ground (arith, compare_bytes-negate f xs ys)

pub compare_digits-negate : (xs ys : List ℕ) → compare_digits ys xs ≡ negate (compare_digits xs ys)
unfolding compare_digits negate
compare_digits-negate [] [] = refl
compare_digits-negate [] (y ∷ ys) = refl
compare_digits-negate (x ∷ xs) [] = refl
compare_digits-negate (x ∷ xs) (y ∷ ys) = ground (arith, compare_digits-negate xs ys)

signed_negate :
    (a b : Bool) (xs ys : List ℕ)
    → compare_signed (b, ys) (a, xs) ≡ negate (compare_signed (a, xs) (b, ys))
unfolding compare_signed negate signed_result differ
signed_negate true true xs ys =
    ground (arith, compare_digits-negate xs ys, negate-negate (compare_digits xs ys))
signed_negate true false xs ys = refl
signed_negate false true xs ys = refl
signed_negate false false xs ys = ground (arith, compare_digits-negate xs ys)

compare_text-negate :
    (o : Options) (a b : List ℕ) → compare_text o b a ≡ negate (compare_text o a b)
unfolding compare_text
compare_text-negate o a b = ground (
  arith,
  compare_bytes-negate o.fold_case a b,
  compare_bytes-negate o.fold_case (skip_blanks a) (skip_blanks b),
)

-- Two lines compared the other way round give the opposite result, under all options: as text or as
-- numbers, with or without folding, leading blanks and reversal.
pub compare_lines-negate :
    (o : Options) (a b : List ℕ) → compare_lines o b a ≡ negate (compare_lines o a b)
unfolding compare_lines compare_number
compare_lines-negate o a b = ground (
  arith,
  compare_text-negate o a b,
  signed_negate (number a).0 (number b).0 (number a).1 (number b).1,
)
