-- ===== src/Str/Strings.antt =====
-- Strings that end in a NUL (_lib/str.h, strlen).
use u.Common.{ℕ, zero, suc, ◌+◌, ◌≤◌, ◌<◌, ◌≡◌, ◌≢◌, ◌==◌, arith, Safe, safe, Safe-bind, Safe-if}
use u.Common.Buffer.{Buffer, read-Safe}
use u.Str.{scan, strlen}

-- The array holds a string of `n` bytes: its first NUL is at `n`.
pub record IsString (s : Buffer ℕ) (n : ℕ) : Type 0 where
  pub inside : n < s.size
  pub nul : s.at n ≡ 0
  pub bytes : (k : ℕ) → k < n → s.at k ≢ 0

pub scan-Safe :
    (fuel : ℕ) (s : Buffer ℕ) (i : ℕ) {n : ℕ}
    → IsString s n
    → i ≤ n
    → n < i + fuel
    → Safe (λ r. r ≡ n) (scan fuel s i)
unfolding scan
scan-Safe zero s i v h k = absurd (omega arith)
scan-Safe (suc fuel) s i {n} v h k = Safe-bind (read-Safe s i (omega (arith, v.inside))) λ c e.
    Safe-if (c == 0) (λ z. safe (ground (arith, v.bytes i)))
      (λ z. scan-Safe fuel s (i + 1) v (ground (arith, v.nul)) (omega arith))

pub strlen-Safe : (s : Buffer ℕ) {n : ℕ} → IsString s n → Safe (λ r. r ≡ n) (strlen s)
unfolding strlen
strlen-Safe s v = scan-Safe s.size s 0 v (omega arith) (omega (arith, v.inside))
