-- ===== src/Str/Copy.antt =====
-- What strlcpy and strlcat write (_lib/str.h).
use native.Mathlib.Decide.{dec_lt}
use u.Common.{
  ℕ, zero, suc, ◌+◌, ◌-◌, ◌≤◌, ◌<◌, ◌≡◌, refl, ◌==◌, inl, inr, arith, Safe, safe, Safe-bind,
  Safe-if, Safe-mono, ◌⊎◌,
}
use u.Common.Buffer.{put, write-put, Buffer, read-Safe}
use u.Str.{copy}
use u.Str.Strings.{IsString, scan-Safe}

-- `d'` is `d` with the bytes from `s[i]` at `d[j]`, cut to `room` bytes, and a NUL behind them. The
-- NUL of `s` is at `n`.
pub record IsCopied (d : Buffer ℕ) (j : ℕ) (s : Buffer ℕ) (i n room : ℕ) (d' : Buffer ℕ)
    : Type 0 where
  pub size_eq : d'.size ≡ d.size
  pub copied : (k : ℕ) → j ≤ k → k < j + room → i + (k - j) < n → d'.at k ≡ s.at (i + (k - j))
  pub ended :
      (k : ℕ)
      → j ≤ k
      → k ≤ j + room
      → i + (k - j) ≤ n
      → (k ≡ j + room) ⊎ (i + (k - j) ≡ n)
      → d'.at k ≡ 0
  pub others : (k : ℕ) → (k < j) ⊎ (j + room < k) → d'.at k ≡ d.at k

IsCopied-last :
    (d : Buffer ℕ) (j : ℕ) (s : Buffer ℕ) (i n room : ℕ)
    → (room ≡ 0) ⊎ (i ≡ n)
    → i ≤ n
    → IsCopied d j s i n room (put d j 0)
IsCopied-last d j s i n room h l = record {
  size_eq = refl;
  copied = λ k p q t. absurd (omega arith);
  ended = λ k p q t u. ground arith;
  others = λ k p. ground arith;
}

IsCopied-put :
    (d : Buffer ℕ) (j : ℕ) (s : Buffer ℕ) (i n room : ℕ) (d' : Buffer ℕ)
    → i < n
    → IsCopied (put d j (s.at i)) (j + 1) s (i + 1) n room d'
    → IsCopied d j s i n (suc room) d'
IsCopied-put d j s i n room d' h t = record {
  size_eq = t.size_eq;
  copied = λ k p q u. elim (dec_lt j k) [
    | yes a ↦
        let e : i + (k - j) ≡ i + 1 + (k - (j + 1)) = omega arith in
        rw e (t.copied k (omega arith) (omega arith) (omega arith))
    | no a ↦
        let e : k ≡ j = omega arith in
        let e' : i + (j - j) ≡ i = omega arith in rw (e, e') (ground (arith, t.others j))
  ];
  ended = λ k p q u w. t.ended k (ground arith) (omega arith) (ground arith) (ground arith);
  others = λ k p. ground (arith, t.others k);
}

pub copy-IsCopied :
    (room : ℕ) (d : Buffer ℕ) (j : ℕ) (s : Buffer ℕ) (i : ℕ) {n : ℕ}
    → IsString s n
    → i ≤ n
    → j + room < d.size
    → Safe (λ (r : Buffer ℕ × ℕ). IsCopied d j s i n room r.0 × (r.1 ≡ n)) (copy room d j s i)
unfolding copy
copy-IsCopied zero d j s i {n} v h k = Safe-bind (write-put d j 0 (omega arith)) λ d' e.
    Safe-bind (scan-Safe s.size s i v h (omega (arith, v.inside)))
      λ r q. safe (rw e (IsCopied-last d j s i n 0 (inl refl) h), q)
copy-IsCopied (suc room) d j s i {n} v h k =
    Safe-bind (read-Safe s i (omega (arith, v.inside))) λ c q.
      Safe-bind (write-put d j c (omega arith)) λ d' e.
        rw (e, q)
          (Safe-if (s.at i == 0)
            (λ z.
              let last : i ≡ n = ground (arith, v.bytes i) in
              let nul : s.at i ≡ 0 = ground arith in
              safe (rw nul (IsCopied-last d j s i n (suc room) (inr last) h), last))
            (λ z.
              let inside : i < n = ground (arith, v.nul) in
              Safe-mono
                (copy-IsCopied room (put d j (s.at i)) (j + 1) s (i + 1) v (omega arith)
                  (omega arith))
                λ r t. (IsCopied-put d j s i n room r.0 inside t.0, t.1)))
