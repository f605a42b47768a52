-- ===== src/Sort.antt =====
-- The order of lines in sort/sort.c. A line `{off, len}` is the list of its bytes,
-- `input[off .. off + len)`: the comparisons read these, from the first on, and nothing else.
mod Order
mod Heap
mod Rearrange
mod Transitive
mod Sift
mod Sorted
mod Output
mod Tests
use u.Common.{
  ℕ, Bool, true, false, not, ◌+◌, ◌-◌, ◌&&◌, ◌||◌, ◌==◌, List, [], ◌∷◌, ltb, leb, if◌then◌else◌,
  length,
}

pub record Options : Type 0 where
  pub reverse : Bool
  pub numeric : Bool
  pub fold_case : Bool
  pub ignore_blanks : Bool
  pub unique : Bool

-- The results -1, 0 and 1.
pub data Comparison : Type 0 where
  less equal greater : Comparison

-- `-result`
unfoldable pub negate : Comparison → Comparison
negate less = greater
negate equal = equal
negate greater = less

unfoldable pub folded : Bool → ℕ → ℕ
folded fold_case c = if fold_case && leb b'A' c && leb c b'Z' then c + (b'a' - b'A') else c

unfoldable pub is_blank : ℕ → Bool
is_blank c = c == b' ' || c == b'\t'

unfoldable pub skip_blanks : List ℕ → List ℕ
skip_blanks [] = []
skip_blanks (c ∷ cs) = let rest = skip_blanks cs in if is_blank c then rest else c ∷ cs

-- The second loop of `compare_text`, with the test of the lengths after it.
unfoldable pub compare_bytes : Bool → List ℕ → List ℕ → Comparison
compare_bytes fold_case [] [] = equal
compare_bytes fold_case [] (y ∷ ys) = less
compare_bytes fold_case (x ∷ xs) [] = greater
compare_bytes fold_case (x ∷ xs) (y ∷ ys) =
    let rest = compare_bytes fold_case xs ys in
    if not (folded fold_case x == folded fold_case y)
    then (if ltb (folded fold_case x) (folded fold_case y) then less else greater)
    else rest

unfoldable pub compare_text : Options → List ℕ → List ℕ → Comparison
compare_text o a b =
    if o.ignore_blanks
    then compare_bytes o.fold_case (skip_blanks a) (skip_blanks b)
    else compare_bytes o.fold_case a b

unfoldable pub digit : ℕ → Bool
digit c = leb b'0' c && leb c b'9'

-- A sign before the digits: whether it is a minus, and what follows.
unfoldable pub sign : List ℕ → Bool × List ℕ
sign [] = (false, [])
sign (c ∷ cs) = if c == b'-' || c == b'+' then (c == b'-', cs) else (false, c ∷ cs)

unfoldable pub leading_digits : List ℕ → List ℕ
leading_digits [] = []
leading_digits (c ∷ cs) = let rest = leading_digits cs in if digit c then c ∷ rest else []

unfoldable pub drop_zeros : List ℕ → List ℕ
drop_zeros [] = []
drop_zeros (c ∷ cs) = let rest = drop_zeros cs in if c == b'0' then rest else c ∷ cs

-- The number at the start of a line: whether it is negative, and its digits without leading zeros.
-- Zero is not negative.
unfoldable pub number : List ℕ → Bool × List ℕ
number a =
    let signed = sign (skip_blanks a) in
    let digits = drop_zeros (leading_digits signed.1) in
    (if length digits == 0 then false else signed.0, digits)

-- The loop over the digits of two numbers of one length.
unfoldable pub compare_digits : List ℕ → List ℕ → Comparison
compare_digits (x ∷ xs) (y ∷ ys) =
    let rest = compare_digits xs ys in
    if not (x == y) then (if ltb x y then less else greater) else rest
compare_digits _ _ = equal

unfoldable pub signed_result : Bool → Comparison → Comparison
signed_result neg r = if neg then negate r else r

-- `a != b`
unfoldable pub differ : Bool → Bool → Bool
differ true b = not b
differ false b = b

-- `compare_number` after the two numbers are read.
unfoldable pub compare_signed : Bool × List ℕ → Bool × List ℕ → Comparison
compare_signed a b =
    if differ a.0 b.0
    then (if a.0 then less else greater)
    else if not (length a.1 == length b.1)
    then signed_result a.0 (if ltb (length a.1) (length b.1) then less else greater)
    else signed_result a.0 (compare_digits a.1 b.1)

unfoldable pub compare_number : List ℕ → List ℕ → Comparison
compare_number a b = compare_signed (number a) (number b)

unfoldable pub compare_lines : Options → List ℕ → List ℕ → Comparison
compare_lines o a b =
    let result = if o.numeric then compare_number a b else compare_text o a b in
    if o.reverse then negate result else result
