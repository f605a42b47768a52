-- ===== src/Rev/Flip.antt =====
-- The loops over one line of rev/rev.c: where it ends, and its bytes in the opposite order.
use u.Common.{
  ℕ, zero, suc, ◌+◌, ◌-◌, ◌≤◌, ◌<◌, ◌≡◌, ◌≢◌, refl, ◌==◌, ltb, ◌⊎◌, inl, inr, arith, Safe, safe,
  Safe-bind, Safe-if, Safe-mono,
}
use u.Common.Buffer.{put, write-put, Buffer, read-Safe}
use u.Rev.{line_end, reverse}

-- `d` is `p` with the bytes from `s` to before `e` in the opposite order.
pub record IsFlipped (p : Buffer ℕ) (s e : ℕ) (d : Buffer ℕ) : Type 0 where
  pub size_eq : d.size ≡ p.size
  pub inner : (k : ℕ) → s ≤ k → k < e → d.at k ≡ p.at (s + e - 1 - k)
  pub outer : (k : ℕ) → (k < s) ⊎ (e ≤ k) → d.at k ≡ p.at k

pub line_end-Safe :
    (left : ℕ) (p : Buffer ℕ) (end : ℕ) {used : ℕ}
    → end + left ≡ used
    → used ≤ p.size
    → Safe
        (λ e.
          (end ≤ e)
          × (e ≤ used)
          × ((e ≡ used) ⊎ (p.at e ≡ b'\n'))
          × ((k : ℕ) → end ≤ k → k < e → p.at k ≢ b'\n'))
        (line_end left p end)
unfolding line_end
line_end-Safe zero p end h l =
    safe (omega arith, omega arith, inl (omega arith), λ k q w. absurd (omega arith))
line_end-Safe (suc left) p end h l = Safe-bind (read-Safe p end (omega arith)) λ c e.
    Safe-if (c == b'\n')
      (λ z. safe (omega arith, omega arith, inr (ground arith), λ k q w. absurd (omega arith)))
      (λ z. Safe-mono (line_end-Safe left p (end + 1) (omega arith) l) λ r t.
        let (lo, hi, stops, before) = t in
        (omega arith, hi, stops, λ k q w. ground (arith, before k)))

IsFlipped-swap :
    (p : Buffer ℕ) (s e : ℕ) (d : Buffer ℕ)
    → s < e
    → IsFlipped (put (put p s (p.at (e - 1))) (e - 1) (p.at s)) (s + 1) (e - 1) d
    → IsFlipped p s e d
IsFlipped-swap p s e d h t = record {
  size_eq = t.size_eq;
  inner = λ k q w.
      let same : s + 1 + (e - 1) - 1 - k ≡ s + e - 1 - k = omega arith in
      let last : s + e - 1 - s ≡ e - 1 = omega arith in
      let first : s + e - 1 - (e - 1) ≡ s = omega arith in
      ground (arith, t.inner k, t.outer k, same, last, first);
  outer = λ k q. ground (arith, t.outer k);
}

IsFlipped-same : (p : Buffer ℕ) (s e : ℕ) → e ≤ s → IsFlipped p s e p
IsFlipped-same p s e h = record {
  size_eq = refl;
  inner = λ k q w. absurd (omega arith);
  outer = λ k q. refl;
}

pub reverse-IsFlipped :
    (fuel : ℕ) (p : Buffer ℕ) (s e : ℕ)
    → e ≤ s + fuel
    → e ≤ p.size
    → Safe (IsFlipped p s e) (reverse fuel p s e)
unfolding reverse
reverse-IsFlipped zero p s e h l =
    Safe-if (ltb s e) (λ d. absurd (ground arith)) (λ d. safe (IsFlipped-same p s e (ground arith)))
reverse-IsFlipped (suc fuel) p s e h l =
    Safe-if (ltb s e)
      (λ z.
        let before : s < e = ground arith in
        Safe-bind (read-Safe p s (omega arith)) λ c i.
          Safe-bind (read-Safe p (e - 1) (omega arith)) λ d j.
            Safe-bind (write-put p s d (omega arith)) λ p1 w.
              rw (w, i, j)
                (Safe-bind (write-put (put p s (p.at (e - 1))) (e - 1) (p.at s) (omega arith))
                  λ p2 w'. rw w' (
                    Safe-mono
                      (reverse-IsFlipped fuel (put (put p s (p.at (e - 1))) (e - 1) (p.at s))
                        (s + 1) (e - 1) (omega arith) (omega arith))
                      λ r t. IsFlipped-swap p s e r before t)))
      (λ z. safe (IsFlipped-same p s e (ground arith)))
