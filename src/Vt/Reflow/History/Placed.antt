-- ===== src/Vt/Reflow/History/Placed.antt =====
-- The layout of the lines that a reflow takes back (_lib/vt.c, reflow, fourth step).
use native.Mathlib.Nat.{mul-le-mul_right}
use u.Common.{
  ℕ, zero, suc, ◌+◌, ◌-◌, ◌≤◌, ◌<◌, ◌≡◌, ◌≢◌, ◌∙◌, ◌==◌, ltb, length, arith, Safe, safe, Safe-bind,
  Safe-mono, Safe-if, Safe-step,
}
use u.Common.Buffer.{Buffer, read-Safe}
use u.Vt.Types.{Cell}
use u.Vt.Reflow.{Target}
use u.Vt.Reflow.Layout.{TargetFits, lay_rows-Fits, count_rows-cells}
use u.Vt.Reflow.History.{line_stop, with_cells, capacity, lay_history}
use u.Vt.Reflow.History.Pulled.{History, done, line, decode_text-length}

-- The forward search for the newline that ends the line.
line_stop-Safe :
    (left : ℕ) (b : Buffer ℕ) (e p : ℕ)
    → e ≤ p
    → p < e + left
    → p < b.size
    → b.at p ≡ b'\n'
    → ((k : ℕ) → e ≤ k → k < p → b.at k ≢ b'\n')
    → Safe (λ r. r ≡ p) (line_stop b e left)
unfolding line_stop
line_stop-Safe zero b e p h k l n w = absurd (omega arith)
line_stop-Safe (suc left) b e p h k l n w = Safe-bind (read-Safe b e (omega arith)) λ c q.
    Safe-if (c == b'\n') (λ z. safe (ground (arith, w e)))
      (λ z.
        line_stop-Safe left b (e + 1) p (ground arith) (omega arith) l n
          (λ j u v. w j (omega arith) v))

pub lay_history-Fits :
    (fuel : ℕ) (b : Buffer ℕ) (tmp : Buffer Cell) (nr nc cut p : ℕ) (t : Target)
    (row height rows : ℕ)
    → 2 ≤ nc
    → cut ≤ b.size
    → tmp.size ≡ capacity nr nc
    → cut ≤ p + fuel
    → rows ≤ nr
    → row + rows ≤ height
    → TargetFits nc height t
    → History b tmp nr nc cut p rows
    → Safe
        (λ (o : Target × ℕ). TargetFits nc height o.0 × (o.1 ≡ row + rows))
        (lay_history fuel b tmp nr nc cut p t row)
unfolding lay_history
lay_history-Fits zero b tmp nr nc cut p t row height rows w h z f l k v done =
    Safe-if (ltb p cut) (λ d. absurd (ground arith)) (λ d. safe (v, omega arith))
lay_history-Fits (suc fuel) b tmp nr nc cut p t row height rows w h z f l k v done =
    Safe-if (ltb p cut) (λ d. absurd (ground arith)) (λ d. safe (v, omega arith))
lay_history-Fits zero b tmp nr nc cut p t row height rows w h z f l k v
      (line {p = e} {rows = r} {more = rest} {text = text} {cells = cells} a c n o s d m later) =
    absurd (omega arith)
lay_history-Fits (suc fuel) b tmp nr nc cut p t row height rows w h z f l k v
      (line {p = e} {rows = r} {more = rest} {text = text} {cells = cells} a c n o s d m later) =
    let few = decode_text-length text (capacity nr nc) d in
    let held = count_rows-cells (with_cells tmp cells) 0 (length cells) nc w (omega arith) m in
    let within = mul-le-mul_right {m = r} {n = nr} nc (omega arith) in
    Safe-if (ltb p cut)
      (λ _. Safe-bind (line_stop-Safe (cut - p) b p e a (omega arith) (omega arith) n o) λ e' q.
        rw q (
          Safe-step _ s (
            rw d (
              Safe-bind
                (lay_rows-Fits (with_cells tmp cells) 0 (length cells) nc t row height r w
                  (omega arith) m (omega arith) v)
                λ u i.
                  let same : row + r + rest ≡ row + (rest + r) = omega arith in
                  let after : e + 1 ≡ suc e = omega arith in
                  rw (i.1, after)
                    (Safe-mono
                      (lay_history-Fits fuel b tmp nr nc cut (suc e) u.0 (row + r) height rest w h z
                        (omega arith) (omega arith) (omega arith) i.0 later)
                      λ x y. (y.0, y.1 ∙ same))))))
      (λ x. absurd (ground arith))
