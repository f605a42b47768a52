-- ===== src/Common/Buffer.antt =====
-- A C array: its size and its elements. An access outside `size` is a fault.
use Prim.Native.Nat.{ℕ, ◌+◌, ◌≤◌, ◌<◌}
use mathlib.Core.Option.{Option}
use mathlib.Core.Path.{◌≡◌, refl}
use u.Common.Tests.{ltb, leb, ◌==◌, if◌then◌else◌, lt→ltb, le→leb}
use u.Common.Fault.{check, Safe, Safe-check}

pub record Buffer (A : Type 0) : Type 0 where
  pub size : ℕ
  pub at : ℕ → A

module _ {A : Type 0} where
  -- `calloc` and `memset`: `n` elements, all `v`
  abbrev pub filled : ℕ → A → Buffer A
  filled n v = record { size = n; at = λ i. v }

  unfoldable pub read : Buffer A → ℕ → Option A
  read b i = check (ltb i b.size) (b.at i)

  unfoldable pub write : Buffer A → ℕ → A → Option (Buffer A)
  write b i v = check (ltb i b.size) (record b { at = λ j. if j == i then v else b.at j })

  -- `memset(b + from, v, n)` over whole elements
  unfoldable pub fill : Buffer A → ℕ → ℕ → A → Option (Buffer A)
  fill b from n v = check (leb (from + n) b.size) (record b {
    at = λ j. if leb from j then (if ltb j (from + n) then v else b.at j) else b.at j;
  })

  pub read-Safe : (b : Buffer A) (i : ℕ) → i < b.size → Safe (λ v. v ≡ b.at i) (read b i)
  unfolding read
  read-Safe b i h = Safe-check _ _ (lt→ltb i b.size h) refl

  pub write-Safe :
      (b : Buffer A) (i : ℕ) (v : A) → i < b.size → Safe (λ c. c.size ≡ b.size) (write b i v)
  unfolding write
  write-Safe b i v h = Safe-check _ _ (lt→ltb i b.size h) refl

  pub fill-Safe :
      (b : Buffer A) (from n : ℕ) (v : A)
      → from + n ≤ b.size
      → Safe (λ c. c.size ≡ b.size) (fill b from n v)
  unfolding fill
  fill-Safe b from n v h = Safe-check _ _ (le→leb _ _ h) refl

  -- `b[i] = v`, where `i` is inside
  abbrev pub put : Buffer A → ℕ → A → Buffer A
  put b i v = record b { at = λ j. if j == i then v else b.at j }

  pub write-put :
      (b : Buffer A) (i : ℕ) (v : A) → i < b.size → Safe (λ c. c ≡ put b i v) (write b i v)
  unfolding write
  write-put b i v h = Safe-check _ _ (lt→ltb i b.size h) refl
