-- ===== src/Vt/Wire/Numbers.antt =====
-- Numbers and arrays of numbers that are put on the wire are read back (_lib/vt.c).
use u.Common.{
  ℕ, zero, suc, ◌/◌, ◌≡◌, refl, ap, Option, some, List, [], ◌∷◌, arith, Bool, true, false, All,
  length, ◌>>=◌,
}
use u.Vt.Wire.{put_le, get_le, put_array, get_array, from_bool, to_bool}

-- `v < 256 ^ k`
abbrev pub Fits : ℕ → ℕ → Type 0
Fits zero v = v ≡ 0
Fits (suc k) v = Fits k (v / 256)

-- `n` numbers of `k` bytes.
abbrev pub ArrayFits : ℕ → ℕ → List ℕ → Type 0
ArrayFits k n vs = (length vs ≡ n) × All (Fits k) vs

-- One read of a sequence.
pub get_le_step {ℓ} :
    {A : Type 0} {B : Type ℓ} (f : A → Option B) {m : Option A} {a : A} {y : Option B}
    → m ≡ some a
    → f a ≡ y
    → (m >>= f) ≡ y
unfolding ◌>>=◌
get_le_step f e h = rw e h

pub get_le-put_le :
    (k v : ℕ) (rest : List ℕ) → Fits k v → get_le k (put_le k v rest) ≡ some (v, rest)
unfolding get_le put_le
get_le-put_le zero v rest h = rw h refl
get_le-put_le (suc k) v rest h =
    get_le_step _ (get_le-put_le k (v / 256) rest h) (ap (λ x. some (x, rest)) (omega arith))

pub get_array-put_array :
    (k n : ℕ) (vs rest : List ℕ)
    → ArrayFits k n vs
    → get_array k n (put_array k vs rest) ≡ some (vs, rest)
unfolding get_array put_array
get_array-put_array k zero [] rest h = refl
get_array-put_array k zero (v ∷ vs) rest h = absurd (omega (arith, h.0))
get_array-put_array k (suc n) [] rest h = absurd (omega (arith, h.0))
get_array-put_array k (suc n) (v ∷ vs) rest h =
    get_le_step _ (get_le-put_le k v (put_array k vs rest) h.1.0)
      (get_le_step _ (get_array-put_array k n vs rest (omega (arith, h.0), h.1.1)) refl)

pub bool-Fits : (b : Bool) → Fits 1 (from_bool b)
bool-Fits true = omega arith
bool-Fits false = omega arith

pub to_bool-from_bool : (b : Bool) → to_bool (from_bool b) ≡ b
to_bool-from_bool true = refl
to_bool-from_bool false = refl
