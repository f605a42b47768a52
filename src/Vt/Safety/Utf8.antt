-- ===== src/Vt/Safety/Utf8.antt =====
-- The UTF-8 decoder stays inside its four bytes.
use u.Common.{
  ℕ, ◌+◌, ◌≤◌, ◌<◌, ◌≡◌, refl, arith, Safe, safe, Safe-bind, Safe-if, ltb, ◌==◌, inl, inr, bit_and,
  ltb→lt,
}
use u.Common.Buffer.{Buffer, read-Safe, write-Safe}
use u.Vt.Utf8.{Carry, start_seq, utf8_lead, utf8_decode, utf8_next, utf8_feed}
use u.Vt.Safety.{CarryFits}

pub record CarryValid (k : Carry) : Type 0 where
  pub size_eq : k.utf8_buf.size ≡ 4
  pub fits : CarryFits k.utf8_len k.utf8_want

start_seq-Safe :
    (k : Carry) (byte want : ℕ)
    → CarryValid k
    → 1 < want
    → want ≤ 4
    → Safe (λ r. CarryValid r.0) (start_seq k byte want)
start_seq-Safe k byte want v h l =
    Safe-bind (write-Safe k.utf8_buf 0 byte (omega arith))
      λ b e. safe (record { size_eq = omega arith; fits = inr (omega arith, h, l) })

utf8_lead-Safe :
    (k : Carry) (byte : ℕ) → CarryValid k → Safe (λ r. CarryValid r.0) (utf8_lead k byte)
unfolding utf8_lead
utf8_lead-Safe k byte v =
    Safe-if (ltb byte 0x80) (λ _. safe v)
      λ _.
        Safe-if (bit_and byte 0xE0 == 0xC0)
          (λ _. start_seq-Safe k byte 2 v (omega arith) (omega arith))
          λ _.
            Safe-if (bit_and byte 0xF0 == 0xE0)
              (λ _. start_seq-Safe k byte 3 v (omega arith) (omega arith))
              λ _.
                Safe-if (bit_and byte 0xF8 == 0xF0)
                  (λ _. start_seq-Safe k byte 4 v (omega arith) (omega arith)) (λ _. safe v)

utf8_decode-Safe : (b : Buffer ℕ) (want : ℕ) → b.size ≡ 4 → Safe (λ cp. Unit) (utf8_decode b want)
unfolding utf8_decode
utf8_decode-Safe b want h =
    Safe-if (want == 2)
      (λ _.
        Safe-bind (read-Safe b 0 (omega arith))
          λ _ _. Safe-bind (read-Safe b 1 (omega arith)) λ _ _. safe tt)
      λ _.
        Safe-if (want == 3)
          (λ _. Safe-bind (read-Safe b 0 (omega arith)) λ _ _.
            Safe-bind (read-Safe b 1 (omega arith))
              λ _ _. Safe-bind (read-Safe b 2 (omega arith)) λ _ _. safe tt)
          (λ _. Safe-bind (read-Safe b 0 (omega arith)) λ _ _.
            Safe-bind (read-Safe b 1 (omega arith)) λ _ _.
              Safe-bind (read-Safe b 2 (omega arith))
                λ _ _. Safe-bind (read-Safe b 3 (omega arith)) λ _ _. safe tt)

utf8_next-Safe :
    (k : Carry) (byte : ℕ)
    → k.utf8_buf.size ≡ 4
    → 1 ≤ k.utf8_len
    → k.utf8_len < k.utf8_want
    → k.utf8_want ≤ 4
    → Safe (λ r. CarryValid r.0) (utf8_next k byte)
unfolding utf8_next
utf8_next-Safe k byte h l m n =
    Safe-if (bit_and byte 0xC0 == 0x80)
      (λ _. Safe-bind (write-Safe k.utf8_buf k.utf8_len byte (omega arith)) λ b e.
        Safe-if (ltb (k.utf8_len + 1) k.utf8_want)
          (λ t. safe (record { size_eq = omega arith; fits = inr (omega arith, ltb→lt _ _ t, n) }))
          (λ _.
            Safe-bind (utf8_decode-Safe b k.utf8_want (omega arith))
              λ cp _. safe (record { size_eq = omega arith; fits = inl refl })))
      (λ _. safe (record { size_eq = h; fits = inl refl }))

pub utf8_feed-Safe :
    (k : Carry) (byte : ℕ) → CarryValid k → Safe (λ r. CarryValid r.0) (utf8_feed k byte)
unfolding utf8_feed
utf8_feed-Safe k byte v =
    Safe-if (k.utf8_want == 0) (λ _. utf8_lead-Safe k byte v)
      (λ e. elim v.fits [
        | inl z ↦ absurd (ground arith)
        | inr (l, m, n) ↦ utf8_next-Safe k byte v.size_eq l m n
      ])
