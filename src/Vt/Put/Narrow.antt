-- ===== src/Vt/Put/Narrow.antt =====
-- What put_char does on a screen of one column (_lib/vt.c): in insert mode a double-width character
-- is given two slots of a row that has one.
use u.Common.{
  Bool, Option, ℕ, bit_or, Safe, safe, Safe-bind, Safe-step, Safe-if, Safe-some, Safe-check, ◌==◌,
  leb, ◌&&◌, ◌+◌, ◌<◌, ◌≡◌, refl, true, false, some, none, ◌>>=◌, arith,
}
use u.Vt.Types.{Cell, Grid, Screen}
use u.Vt.Cells.{write_cell, blank_cell}
use u.Vt.Scroll.{with_flags, do_lf}
use u.Common.Buffer.{Buffer, read, write, read-Safe, write-Safe}
use u.Vt.Types.{row_wrapped}
use u.Vt.Safety.{FlagsFit}
use u.Vt.Put.{
  mark_wrapped, wrap_pending, wrap_wide, blank_slots, insert_slots, place, put_wide, pad_cell,
}

-- One column, insert mode and autowrap, with a row below the cursor's that is inside the region.
pub record IsNarrow (s : Screen) : Type 0 where
  pub one_column : s.cols ≡ 1
  pub width_eq : s.cells.width ≡ 1
  pub row_in : s.cur_row < s.cells.height
  pub at_margin : s.cur_col ≡ 0
  pub inserting : s.insert_mode ≡ true
  pub wrapping : s.auto_wrap ≡ true
  pub settled : s.pending_wrap ≡ false
  pub room_below : s.cur_row + 1 < s.rows
  pub in_region : s.cur_row < s.scroll_bottom
  pub flags_fit : FlagsFit s.rows s.row_flags

-- Two slots do not fit a row of one column.
blank_slots-faults : (b : Cell) (g : Grid) (r : ℕ) → g.width ≡ 1 → blank_slots b g r 0 2 ≡ none
unfolding blank_slots write_cell ◌>>=◌
blank_slots-faults b g r e = ground arith

insert_slots-faults :
    (s : Screen)
    → s.cols ≡ 1
    → s.cells.width ≡ 1
    → s.cur_col ≡ 0
    → s.insert_mode ≡ true
    → insert_slots s 2 ≡ none
unfolding insert_slots ◌>>=◌
insert_slots-faults s e w c i =
    ground (arith, blank_slots-faults (blank_cell s) s.cells s.cur_row w)

-- The character first pads its row and wraps: it is to be placed at the start of the next row.
record IsWrapped (r : Screen × Bool) : Type 0 where
  one_column : r.0.cols ≡ 1
  width_eq : r.0.cells.width ≡ 1
  at_margin : r.0.cur_col ≡ 0
  inserting : r.0.insert_mode ≡ true
  placed : r.1 ≡ true

mark_wrapped-flags :
    (s : Screen)
    → FlagsFit s.rows s.row_flags
    → s.cur_row < s.rows
    → Safe (λ t. (o : Option (Buffer ℕ)) × (t ≡ record s { row_flags = o })) (mark_wrapped s)
unfolding mark_wrapped
mark_wrapped-flags s f h = Safe-bind (marked s.row_flags f) λ o _. safe (o, refl)
  where
    marked :
        (o : Option (Buffer ℕ))
        → FlagsFit s.rows o
        → Safe
            (λ (x : Option (Buffer ℕ)). Unit)
            (with_flags o (λ f. do v ← read f s.cur_row; write f s.cur_row (bit_or v row_wrapped)))
    marked none f = unfold with_flags in safe tt
    marked (some b) f =
        unfold with_flags in
        Safe-bind
          (Safe-bind (read-Safe b s.cur_row (omega arith))
            λ v _. write-Safe b s.cur_row (bit_or v row_wrapped) (omega arith))
          λ b' _. safe tt

do_lf-below :
    (s : Screen)
    → s.cur_row < s.scroll_bottom
    → s.cur_row + 1 < s.rows
    → do_lf s ≡ some (record s { cur_row = s.cur_row + 1; pending_wrap = false })
unfolding do_lf ◌>>=◌
do_lf-below s h k = ground arith

wrap_wide-IsWrapped : (s : Screen) → IsNarrow s → Safe IsWrapped (wrap_wide s 2)
unfolding wrap_wide write_cell
wrap_wide-IsWrapped s n =
    Safe-if (2 == 2 && leb s.cols (s.cur_col + 1))
      (λ e. Safe-bind (padded n.row_in) λ g w.
        Safe-if s.auto_wrap
          (λ a.
            Safe-bind
              (mark_wrapped-flags (record s { cells = g }) n.flags_fit
                (omega (arith, n.room_below)))
              λ t m.
                let (o, same) = m in
                let low =
                  do_lf-below (record s { cells = g; row_flags = o; cur_col = 0 }) n.in_region
                    n.room_below in
                rw same (
                  Safe-step _ low (
                    safe (record {
                      one_column = n.one_column;
                      width_eq = w;
                      at_margin = refl;
                      inserting = n.inserting;
                      placed = refl;
                    }))))
          (λ a. absurd (ground (arith, n.wrapping))))
      (λ e. absurd (ground (arith, n.one_column)))
  where
    padded :
        s.cur_row < s.cells.height
        → Safe (λ (g : Grid). g.width ≡ 1) (write_cell s.cells s.cur_row s.cur_col (pad_cell s))
    padded h =
        unfold write_cell in Safe-check _ _ (ground (arith, n.width_eq, n.at_margin)) n.width_eq

place-faults : (s : Screen) (ch : ℕ) → insert_slots s 2 ≡ none → place s ch 2 ≡ none
unfolding place ◌>>=◌
place-faults s ch e = rw (e, ◌>>=◌)

-- On a screen of one column, with insert mode and autowrap on, no wrap pending and the cursor above
-- the last row and the bottom of the region, a double-width character makes an access outside the
-- grid, whatever the character.
pub put_wide-faults : (s : Screen) (ch : ℕ) → IsNarrow s → put_wide s ch 2 ≡ none
unfolding put_wide wrap_pending ◌>>=◌
put_wide-faults s ch n =
    let settled : wrap_pending s ≡ some s = unfold wrap_pending in ground (arith, n.settled) in
    let (r, e, w) = Safe-some (wrap_wide-IsWrapped s n) in
    let faults = insert_slots-faults r.0 w.one_column w.width_eq w.at_margin w.inserting in
    rw (settled, ◌>>=◌, e, w.placed) (place-faults r.0 ch faults)
