-- ===== src/Common/Bits.antt =====
-- `|` and `&` on numbers: the lowest bit and the rest, fields that do not overlap, the low six bits
-- of a number, and checks of every value below a bound.
use Prim.Native.Nat.{ℕ, zero, suc, ◌+◌, ◌-◌, ◌*◌, ◌/◌, ◌%◌, ◌^◌, ◌≤◌, ◌<◌, min, max}
use Prim.Native.Nat.{digits, bit_and, bit_or, bit_and-bitwise, bit_or-bitwise}
use mathlib.Core.Path.{◌≡◌, refl, ap, ◌∙◌}
use mathlib.Core.Bool.{Bool, true, ◌&&◌}
use native.Mathlib.Nat.{pow-suc}
use native.Mathlib.Omega.{arith}

module _ (z : ℕ → ℕ) (f : ℕ → ℕ → ℕ) where
  -- One round more than the first operand needs changes nothing.
  one_more : (n a b : ℕ) → a ≤ n → digits z f (suc n) a b ≡ digits z f n a b
  one_more zero zero b h = refl
  one_more zero (suc a) b h = absurd (omega arith)
  one_more (suc n) zero b h = refl
  one_more (suc n) (suc a) b h = rw (one_more n (suc a / 2) (b / 2) (omega arith))

  more : (k n m a b : ℕ) → m ≡ n + k → a ≤ n → digits z f m a b ≡ digits z f n a b
  more zero n m a b e h = let e' : m ≡ n = omega arith in rw e'
  more (suc k) n m a b e h =
      let e' : m ≡ suc (n + k) = omega arith in
      rw e' (one_more (n + k) a b (omega arith) ∙ more k n (n + k) a b refl h)

  -- The rest of a positive number needs fewer rounds than the number.
  rest : (a b : ℕ) → digits z f a (suc a / 2) b ≡ digits z f (suc a / 2) (suc a / 2) b
  rest a b = more (a - suc a / 2) (suc a / 2) a (suc a / 2) b (omega arith) (omega arith)

-- The lowest bit and the rest.
pub bit_or_halve : (a b : ℕ) → bit_or a b ≡ bit_or (a / 2) (b / 2) * 2 + max (a % 2) (b % 2)
bit_or_halve zero b = omega (arith, bit_or-bitwise 0 b, bit_or-bitwise (0 / 2) (b / 2))
bit_or_halve (suc a) b = omega (
  arith,
  bit_or-bitwise (suc a) b,
  bit_or-bitwise (suc a / 2) (b / 2),
  rest (λ y. y) max a (b / 2),
)

pub bit_and_halve : (a b : ℕ) → bit_and a b ≡ bit_and (a / 2) (b / 2) * 2 + min (a % 2) (b % 2)
bit_and_halve zero b = omega (arith, bit_and-bitwise 0 b, bit_and-bitwise (0 / 2) (b / 2))
bit_and_halve (suc a) b = omega (
  arith,
  bit_and-bitwise (suc a) b,
  bit_and-bitwise (suc a / 2) (b / 2),
  rest (λ y. 0) min a (b / 2),
)

-- `a | 0`, by rounds that cover `a`
or_nothing : (n a : ℕ) → a ≤ n → bit_or a 0 ≡ a
or_nothing n zero h = refl
or_nothing zero (suc a) h = absurd (omega arith)
or_nothing (suc n) (suc a) h =
    omega (arith, bit_or_halve (suc a) 0, or_nothing n (suc a / 2) (omega arith))

and_nothing : (n a : ℕ) → a ≤ n → bit_and a 0 ≡ 0
and_nothing n zero h = refl
and_nothing zero (suc a) h = absurd (omega arith)
and_nothing (suc n) (suc a) h =
    omega (arith, bit_and_halve (suc a) 0, and_nothing n (suc a / 2) (omega arith))

-- A field above `k` bits and a value that fits them do not overlap.
pub bit_or_disjoint : (k a b : ℕ) → b < 2 ^ k → bit_or (a * 2 ^ k) b ≡ a * 2 ^ k + b
bit_or_disjoint zero a b h = ground (arith, or_nothing (a * 1) (a * 1))
bit_or_disjoint (suc k) a b h =
    let twice : 2 ^ suc k ≡ 2 * 2 ^ k = omega (arith, pow-suc 2 k) in
    let wide : a * 2 ^ suc k ≡ 2 * (a * 2 ^ k) = omega (arith, ap (λ (t : ℕ). a * t) twice) in
    omega (
      arith,
      wide,
      bit_or_halve (a * 2 ^ suc k) b,
      bit_or_disjoint k a (b / 2) (omega arith),
      ap (λ (t : ℕ). bit_or t (b / 2)) half,
    )
  where
    half : a * 2 ^ suc k / 2 ≡ a * 2 ^ k
    half = omega (arith, ap (λ (t : ℕ). a * t) (pow-suc 2 k))

-- The low bits.
pub bit_and_low_one : (a : ℕ) → bit_and a 1 ≡ a % 2
bit_and_low_one a = omega (arith, bit_and_halve a 1, and_nothing (a / 2) (a / 2) (omega arith))

pub bit_and_low_six : (a : ℕ) → bit_and a 0x3F ≡ a % 64
bit_and_low_six a = omega (
  arith,
  bit_and_halve a 63,
  bit_and_halve (a / 2) 31,
  bit_and_halve (a / 2 / 2) 15,
  bit_and_halve (a / 2 / 2 / 2) 7,
  bit_and_halve (a / 2 / 2 / 2 / 2) 3,
  bit_and_low_one (a / 2 / 2 / 2 / 2 / 2),
)

-- A check of every value below a bound, by evaluation.
unfoldable pub every_below : ℕ → (ℕ → Bool) → Bool
every_below zero p = true
every_below (suc n) p = p n && every_below n p

pub every_below_sound : (n : ℕ) (p : ℕ → Bool) (x : ℕ) → every_below n p ≡ true → x < n → p x ≡ true
unfolding every_below
every_below_sound zero p x h l = absurd (omega arith)
every_below_sound (suc n) p x h l = ground (arith, every_below_sound n p x)
