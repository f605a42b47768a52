-- ===== src/Common/Fault.antt =====
-- Partial computations: `none` is an access outside an array (the C program would read or write
-- memory that is not its own). `Safe P m` says that `m` makes no such access and that its result
-- satisfies `P`.
use mathlib.Core.Path.{◌≡◌, refl}
use mathlib.Core.Bool.{Bool, true, false}
use mathlib.Core.Option
use mathlib.Core.Option.{Option, none, some}
use u.Common.Tests.{if◌then◌else◌}

infixl 5 ◌>>=◌
unfoldable pub ◌>>=◌ {ℓ κ} : {A : Type ℓ} {B : Type κ} → Option A → (A → Option B) → Option B
none >>= f = none
some a >>= f = f a

abbrev pub check {ℓ} : {A : Type ℓ} → Bool → A → Option A
check true a = some a
check false a = none

pub data Safe {ℓ} {A : Type ℓ} (P : A → Type 0) : Option A → Type ℓ where
  safe : {a : A} → P a → Safe P (some a)

module _ {ℓ κ} {A : Type ℓ} {B : Type κ} {P : A → Type 0} {Q : B → Type 0} where
  -- A safe step followed by one that is safe wherever the first may end.
  pub Safe-bind :
      {m : Option A} {f : A → Option B}
      → Safe P m
      → ((a : A) → P a → Safe Q (f a))
      → Safe Q (m >>= f)
  unfolding ◌>>=◌
  Safe-bind (safe h) next = next _ h

  pub Safe-map :
      {m : Option A} (f : A → B) → Safe P m → ((a : A) → P a → Q (f a)) → Safe Q (Option.map f m)
  Safe-map f (safe h) next = safe (next _ h)

module _ {ℓ} {A : Type ℓ} {P : A → Type 0} where
  pub Safe-mono : {Q : A → Type 0} {m : Option A} → Safe P m → ((a : A) → P a → Q a) → Safe Q m
  Safe-mono (safe h) next = safe (next _ h)

  pub Safe-check : (b : Bool) (a : A) → b ≡ true → P a → Safe P (check b a)
  Safe-check true a e h = safe h
  Safe-check false a e h = cc

  -- The result of a safe computation.
  pub Safe-some : {m : Option A} → Safe P m → (a : A) × (m ≡ some a) × P a
  Safe-some (safe {a} h) = (a, refl, h)

  pub Safe-if :
      (b : Bool) {m n : Option A}
      → (b ≡ true → Safe P m)
      → (b ≡ false → Safe P n)
      → Safe P (if b then m else n)
  Safe-if true h k = h refl
  Safe-if false h k = k refl

  pub Safe-and : {Q : A → Type 0} {m : Option A} → Safe P m → Safe Q m → Safe (λ a. P a × Q a) m
  Safe-and (safe h) k = safe (h, value k)
    where
      value : {a : A} {Q : A → Type 0} → Safe Q (some a) → Q a
      value (safe q) = q

-- A step that is known to succeed.
pub Safe-step {ℓ κ} :
    {A : Type ℓ} {B : Type κ} {P : B → Type 0} (f : A → Option B) {m : Option A} {a : A}
    → m ≡ some a
    → Safe P (f a)
    → Safe P (m >>= f)
unfolding ◌>>=◌
Safe-step f e h = rw e h
