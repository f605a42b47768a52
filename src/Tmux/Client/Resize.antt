-- ===== src/Tmux/Client/Resize.antt =====
-- A new size of the terminal keeps the client in order (tmux/main.c: handle_resize).
use u.Common.{
  ℕ, zero, suc, ◌+◌, ◌≤◌, ◌<◌, ◌≡◌, refl, ◌∙◌, Bool, true, false, Option, none, some, arith, Safe,
  safe, Safe-bind, Safe-mono, Bool-cases, inl, inr, ◌==◌,
}
use u.Common.Buffer.{Buffer, read-Safe, write-put}
use u.Vt.Types.{Cell}
use u.Vt.Reflow.Commit.Resized.{IsResized, vt_resize-Safe}
use u.Tmux.Window.{max_windows, Window}
use u.Tmux.Client.{Client, child_rows, resize_slot, resize_slots, handle_resize}
use u.Tmux.Client.Valid.{SlotFits, Shows, IsRunning, full_redraw-IsRunning}

-- What a slot becomes: well-formed, and with all to show that it had.
record SlotKept (o o' : Option Window) : Type 0 where
  fits : SlotFits o'
  shows : (b : Bool) → Shows b o → Shows b o'

resize_slot-SlotKept :
    (junk : ℕ → Cell) (rows cols : ℕ) (o : Option Window)
    → SlotFits o
    → 1 ≤ rows
    → 2 ≤ cols
    → Safe (SlotKept o) (resize_slot junk rows cols o)
unfolding resize_slot
resize_slot-SlotKept junk rows cols none f h k = safe (record { fits = tt; shows = λ b s. s })
resize_slot-SlotKept junk rows cols (some w) f h k =
    Safe-bind (vt_resize-Safe junk w.vt rows cols f h k)
      λ vt r. safe (record { fits = r.valid; shows = shows r })
  where
    shows :
        {q : _}
        → IsResized w.vt rows cols q
        → (b : Bool) → Shows b (some w)
        → Shows b (some (record w { vt = q }))
    shows r true s = r.kept s
    shows r false s = tt

-- The slots from `i` on are resized, and those before it are as they were.
record SlotsKept (wins : Buffer (Option Window)) (i : ℕ) (wins' : Buffer (Option Window))
    : Type 0 where
  size_eq : wins'.size ≡ max_windows
  before : (j : ℕ) → j < i → wins'.at j ≡ wins.at j
  kept : (j : ℕ) → i ≤ j → j < max_windows → SlotKept (wins.at j) (wins'.at j)

resize_slots-SlotsKept :
    (junk : ℕ → Cell) (rows cols : ℕ) (wins : Buffer (Option Window)) (i left : ℕ)
    → wins.size ≡ max_windows
    → i + left ≡ max_windows
    → ((j : ℕ) → i ≤ j → j < max_windows → SlotFits (wins.at j))
    → 1 ≤ rows
    → 2 ≤ cols
    → Safe (SlotsKept wins i) (resize_slots junk rows cols wins i left)
unfolding resize_slots
resize_slots-SlotsKept junk rows cols wins i zero e n f h k =
    safe (record { size_eq = e; before = λ j q. refl; kept = λ j q w. absurd (omega arith) })
resize_slots-SlotsKept junk rows cols wins i (suc left) e n f h k =
    Safe-bind (read-Safe wins i (omega arith)) λ slot r.
      Safe-bind
        (resize_slot-SlotKept junk rows cols slot (rw r (f i (omega arith) (omega arith))) h k)
        λ slot' c. Safe-bind (write-put wins i slot' (omega arith)) λ wins' p.
          let p_at : (j : ℕ) → i < j → wins'.at j ≡ wins.at j = λ j q. rw p (ground arith) in
          let p_here : wins'.at i ≡ slot' = rw p (ground arith) in
          let p_low : (j : ℕ) → j < i → wins'.at j ≡ wins.at j = λ j q. rw p (ground arith) in
          Safe-mono
            (resize_slots-SlotsKept junk rows cols wins' (i + 1) left (rw p e) (omega arith)
              (λ j q w. rw (p_at j (omega arith)) (f j (omega arith) w)) h k)
            λ wins2 t. record {
              size_eq = t.size_eq;
              before = λ j q. t.before j (omega arith) ∙ p_low j q;
              kept = λ j q w. elim (Bool-cases (j == i)) [
                | inl x ↦
                    let here : j ≡ i = ground arith in
                    rw (here, t.before i (omega arith), p_here, ← r) c
                | inr x ↦
                    let past : i < j = ground arith in rw (← p_at j past) (t.kept j (omega arith) w)
              ];
            }

pub handle_resize-IsRunning :
    (junk : ℕ → Cell) (g : Client) (rows cols : ℕ)
    → IsRunning g
    → g.quit ≡ false
    → 2 ≤ cols
    → Safe IsRunning (handle_resize junk g rows cols)
unfolding handle_resize child_rows
handle_resize-IsRunning junk g rows cols v q h =
    Safe-bind
      (resize_slots-SlotsKept junk (child_rows (record g { rows = rows; cols = cols })) cols g.wins
        0 max_windows v.slots.size_eq refl (λ j _ w. v.slots.slots j w) (ground arith) h)
      λ wins k.
        let g' : Client = record g { rows = rows; cols = cols; wins = wins } in
        full_redraw-IsRunning g'
          (record {
            slots = record {
              size_eq = k.size_eq;
              cur_lt = v.slots.cur_lt;
              cols_min = h;
              slots = λ j w. (k.kept j (omega arith) w).fits;
            };
            shown = λ _.
                (k.kept g.cur (omega arith) v.slots.cur_lt).shows g.scrollback_mode (v.shown q);
          })
          q
