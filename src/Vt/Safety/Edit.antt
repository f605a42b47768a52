-- ===== src/Vt/Safety/Edit.antt =====
-- The CSI sequences that erase, insert and delete stay inside the grid.
use u.Common.{
  ℕ, zero, suc, ◌+◌, ◌-◌, ◌≤◌, ◌<◌, false, ◌||◌, ◌&&◌, arith, Safe, safe, Safe-bind, Safe-mono,
  Safe-if, leb, ◌==◌,
}
use u.Common.Buffer.{write-Safe, fill-Safe}
use u.Vt.Types.{Grid, Screen, VtParser}
use u.Vt.Cells.Bounds.{SameSize, clear_row_range-Safe, clear_rows-Safe, move_cells-Safe}
use u.Vt.Csi.Edit.{
  erased, erase_below, csi_ed, csi_el, csi_ech, csi_rep, csi_ich, csi_dch, csi_il, csi_dl,
}
use u.Vt.Safety.{IsValid, ParserValid}
use u.Vt.Safety.Scroll.{with_flags-Safe, scroll_up-Safe, scroll_down-Safe, Scrolled, Scrolled-elim}
use u.Vt.Safety.Put.{put_char-Safe}

erased-Safe :
    (s : Screen) (g : Grid) (r n : ℕ)
    → IsValid s
    → SameSize s.cells g
    → r + n ≤ s.rows
    → Safe IsValid (erased s g r n)
unfolding erased
erased-Safe s g r n v d h =
    Safe-bind
      (with_flags-Safe s.rows s.row_flags v.flags_fit
        λ f e. Safe-mono (fill-Safe f r n 0 (omega arith)) λ f' e'. omega arith)
      λ fl ff. safe (ground arith)

erase_below-Safe :
    (s : Screen) (r c : ℕ) → IsValid s → r < s.rows → c < s.cols → Safe IsValid (erase_below s r c)
unfolding erase_below
erase_below-Safe s r c v h k =
    Safe-bind
      (clear_row_range-Safe s s.cells r c (s.cols - 1) (omega arith) (omega arith) (omega arith))
      λ g d.
        Safe-bind (clear_rows-Safe s g (r + 1) _ (omega arith) (omega arith) (omega arith))
          λ g' d'. erased-Safe s g' r _ v (omega arith) (omega arith)

pub csi_ed-Safe : (s : Screen) (m : ℕ) → IsValid s → Safe IsValid (csi_ed s m)
unfolding csi_ed
csi_ed-Safe s m v =
    Safe-if (m == 0 || m == 2) (λ _. erase_below-Safe s _ _ v (ground arith) (ground arith))
      λ _.
        Safe-if (m == 1)
          (λ _.
            Safe-bind
              (clear_rows-Safe s s.cells 0 s.cur_row (omega arith) (omega arith) (omega arith))
              λ g d.
                Safe-bind
                  (clear_row_range-Safe s g s.cur_row 0 s.cur_col (omega arith) (omega arith)
                    (omega arith))
                  λ g' d'. erased-Safe s g' 0 s.cur_row v (omega arith) (omega arith))
          λ _.
            Safe-if (m == 3)
              (λ _.
                Safe-bind
                  (clear_rows-Safe s s.cells 0 s.rows (omega arith) (omega arith) (omega arith))
                  λ g d. erased-Safe s g 0 s.rows v d (omega arith))
              (λ _. safe v)

-- A screen whose cells alone are replaced by others of the same size.
with_cells :
    {s : Screen} (g : Grid) → IsValid s → SameSize s.cells g → IsValid (record s { cells = g })
with_cells g v d = ground arith

pub csi_el-Safe : (s : Screen) (m : ℕ) → IsValid s → Safe IsValid (csi_el s m)
unfolding csi_el
csi_el-Safe s m v =
    Safe-if (m == 0)
      (λ _.
        Safe-bind
          (clear_row_range-Safe s s.cells s.cur_row s.cur_col (s.cols - 1) (omega arith)
            (omega arith) (omega arith))
          λ g d.
            Safe-bind
              (with_flags-Safe s.rows s.row_flags v.flags_fit
                λ f e. Safe-mono (write-Safe f s.cur_row 0 (omega arith)) λ f' e'. omega arith)
              λ fl ff. safe (ground arith))
      λ _.
        Safe-if (m == 1)
          (λ _.
            Safe-bind
              (clear_row_range-Safe s s.cells s.cur_row 0 s.cur_col (omega arith) (omega arith)
                (omega arith))
              λ g d. safe (with_cells g v d))
          λ _.
            Safe-if (m == 2)
              (λ _.
                Safe-bind
                  (clear_row_range-Safe s s.cells s.cur_row 0 (s.cols - 1) (omega arith)
                    (omega arith) (omega arith))
                  λ g d. safe (with_cells g v d))
              (λ _. safe v)

pub csi_ech-Safe : (s : Screen) (n : ℕ) → IsValid s → 1 ≤ n → Safe IsValid (csi_ech s n)
unfolding csi_ech
csi_ech-Safe s n v h =
    Safe-bind
      (clear_row_range-Safe s s.cells s.cur_row s.cur_col _ (omega arith) (ground arith)
        (ground arith))
      λ g d. safe (with_cells g v d)

pub csi_rep-Safe : (n : ℕ) (p : VtParser) → ParserValid p → Safe ParserValid (csi_rep n p)
unfolding csi_rep
csi_rep-Safe zero p v = safe v
csi_rep-Safe (suc n) p v =
    Safe-if (p.last_graphic == 0) (λ _. safe v)
      λ _. Safe-bind (put_char-Safe p p.last_graphic v) λ q w. csi_rep-Safe n q w

pub csi_ich-Safe : (s : Screen) (n : ℕ) → IsValid s → 1 ≤ n → Safe IsValid (csi_ich s n)
unfolding csi_ich
csi_ich-Safe s n v h =
    Safe-bind (move_cells-Safe s.cells s.cur_row _ _ _ (omega arith) (ground arith) (ground arith))
      λ g d.
        Safe-bind
          (clear_row_range-Safe s g s.cur_row s.cur_col _ (omega arith) (ground arith)
            (ground arith))
          λ g' d'. safe (with_cells g' v (omega arith))

pub csi_dch-Safe : (s : Screen) (n : ℕ) → IsValid s → 1 ≤ n → Safe IsValid (csi_dch s n)
unfolding csi_dch
csi_dch-Safe s n v h =
    Safe-bind (move_cells-Safe s.cells s.cur_row _ _ _ (omega arith) (ground arith) (ground arith))
      λ g d.
        Safe-bind
          (clear_row_range-Safe s g s.cur_row _ (s.cols - 1) (omega arith) (omega arith)
            (ground arith))
          λ g' d'. safe (with_cells g' v (omega arith))

-- The region that starts at the cursor's row, and its end after the scroll.
from_cursor :
    (s : Screen)
    → IsValid s
    → s.cur_row ≤ s.scroll_bottom
    → IsValid (record s { scroll_top = s.cur_row })
from_cursor s v h = ground arith

restored :
    (s : Screen) {t : Screen}
    → IsValid s
    → Scrolled (record s { scroll_top = s.cur_row }) t
    → IsValid (record t { scroll_top = s.scroll_top })
restored s v o =
    Scrolled-elim (λ t. IsValid (record t { scroll_top = s.scroll_top })) o
      λ g fl tx d ff fx. ground arith

to_margin : {t : Screen} → IsValid t → IsValid (record t { cur_col = 0; pending_wrap = false })
to_margin v = ground arith

pub csi_il-Safe : (s : Screen) (n : ℕ) → IsValid s → Safe IsValid (csi_il s n)
unfolding csi_il
csi_il-Safe s n v =
    Safe-bind {P = IsValid}
      (Safe-if (leb s.scroll_top s.cur_row && leb s.cur_row s.scroll_bottom)
        (λ e.
          Safe-bind (scroll_down-Safe _ n (from_cursor s v (ground arith)))
            λ t o. safe (restored s v o))
        (λ _. safe v))
      λ t w. safe (to_margin w)

pub csi_dl-Safe : (s : Screen) (n : ℕ) → IsValid s → Safe IsValid (csi_dl s n)
unfolding csi_dl
csi_dl-Safe s n v =
    Safe-bind {P = IsValid}
      (Safe-if (leb s.scroll_top s.cur_row && leb s.cur_row s.scroll_bottom)
        (λ e.
          Safe-bind (scroll_up-Safe _ n (from_cursor s v (ground arith)))
            λ t o. safe (restored s v o))
        (λ _. safe v))
      λ t w. safe (to_margin w)
