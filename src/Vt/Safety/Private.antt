-- ===== src/Vt/Safety/Private.antt =====
-- The private modes and the alternate screen keep the screen well-formed.
use mathlib.Core.Path.{subst}
use u.Common.{
  ℕ, zero, suc, ◌+◌, ◌≤◌, ◌≡◌, refl, Bool, true, Option, some, none, ◌||◌, arith, Safe, safe,
  Safe-bind, Safe-if, ◌==◌, if_either,
}
use u.Common.Buffer.{Buffer, filled, read-Safe}
use u.Vt.Types.{Grid, Screen}
use u.Vt.Cells.{alloc_cells}
use u.Vt.Cells.Bounds.{clear_rows-Safe}
use u.Vt.Csi.Private.{
  alt_swap, alt_ready, alt_save, alt_enter, alt_on, alt_off, set_mode, reset_mode, private_set,
  private_reset,
}
use u.Vt.Safety.{IsValid, AltFits, FlagsFit}
use u.Vt.Safety.Cursor.{cursor_set-IsValid}
use u.Vt.Safety.Scroll.{with_flags-Safe}

-- Swapping needs the other grid; the parts that a swap exchanges have the same sizes.
swap_step : (s : Screen) (g : Grid) → IsValid s → s.alt_cells ≡ some g → Safe IsValid (alt_swap s)
unfolding alt_swap
swap_step s g v e =
    let fit : AltFits s.rows s.cols s.in_alt_screen (some g) =
      subst (AltFits s.rows s.cols s.in_alt_screen) e v.alt_fit in
    rw (e, alt_swap) (safe (ground arith))

-- While the alternate screen is shown the other grid is there.
other_grid :
    (rows cols : ℕ) (in_alt : Bool) (o : Option Grid)
    → AltFits rows cols in_alt o
    → in_alt ≡ true
    → (g : Grid) × (o ≡ some g)
other_grid rows cols in_alt none fit e = absurd (cc)
other_grid rows cols in_alt (some g) fit e = (g, refl)

ready_cells :
    (rows cols : ℕ) (o : Option Grid)
    → (g : Grid) × ((elim o [ none ↦ some (alloc_cells rows cols) | some g ↦ some g ]) ≡ some g)
ready_cells rows cols none = (alloc_cells rows cols, refl)
ready_cells rows cols (some g) = (g, refl)

ready_cells-AltFits :
    (rows cols : ℕ) (in_alt : Bool) (o : Option Grid)
    → AltFits rows cols in_alt o
    → AltFits rows cols in_alt (elim o [ none ↦ some (alloc_cells rows cols) | some g ↦ some g ])
unfolding alloc_cells
ready_cells-AltFits rows cols in_alt none fit = (refl, refl)
ready_cells-AltFits rows cols in_alt (some g) fit = fit

ready_flags-FlagsFit :
    (rows : ℕ) (o : Option (Buffer ℕ))
    → FlagsFit rows o
    → FlagsFit rows (elim o [ none ↦ some (filled rows 0) | some f ↦ some f ])
ready_flags-FlagsFit rows none fit = refl
ready_flags-FlagsFit rows (some f) fit = fit

alt_ready-IsValid : (s : Screen) → IsValid s → IsValid (alt_ready s)
alt_ready-IsValid s v =
    let a = ready_cells-AltFits s.rows s.cols s.in_alt_screen s.alt_cells v.alt_fit in
    let f = ready_flags-FlagsFit s.rows s.alt_row_flags v.alt_flags_fit in
    record {
      height_eq = v.height_eq;
      width_eq = v.width_eq;
      rows_pos = v.rows_pos;
      cols_min = v.cols_min;
      row_in = v.row_in;
      col_in = v.col_in;
      top_le = v.top_le;
      bottom_in = v.bottom_in;
      saved_row_in = v.saved_row_in;
      saved_col_in = v.saved_col_in;
      alt_saved_row_in = v.alt_saved_row_in;
      alt_saved_col_in = v.alt_saved_col_in;
      flags_fit = v.flags_fit;
      alt_flags_fit = f;
      alt_fit = a;
      text_fit = v.text_fit;
    }

pub alt_swap-Safe : (s : Screen) → IsValid s → Safe IsValid (alt_swap (alt_ready s))
alt_swap-Safe s v =
    let (g, e) = ready_cells s.rows s.cols s.alt_cells in
    swap_step (alt_ready s) g (alt_ready-IsValid s v) e

alt_enter-Safe : (s : Screen) → IsValid s → Safe IsValid (alt_enter s)
unfolding alt_enter
alt_enter-Safe s v = Safe-bind (alt_swap-Safe s v) λ t w.
    Safe-bind (with_flags-Safe t.rows t.row_flags w.flags_fit λ f ef. safe ef)
      λ fl ff. safe (ground arith)

alt_on-Safe : (s : Screen) → IsValid s → Safe IsValid (alt_on s)
unfolding alt_on
alt_on-Safe s v =
    Safe-if s.in_alt_screen (λ _. safe v)
      λ _. Safe-bind (alt_enter-Safe (alt_save s) (ground arith)) λ t w.
        Safe-bind (clear_rows-Safe t t.cells 0 t.rows (omega arith) (omega arith) (omega arith))
          λ g d. safe (ground arith)

alt_off-Safe : (s : Screen) → IsValid s → Safe IsValid (alt_off s)
unfolding alt_off
alt_off-Safe s v =
    Safe-if s.in_alt_screen
      (λ shown.
        let (g, e) = other_grid s.rows s.cols s.in_alt_screen s.alt_cells v.alt_fit shown in
        Safe-bind (swap_step s g v e) λ t w. safe (ground arith))
      (λ _. safe v)

set_mode-Safe : (s : Screen) (m : ℕ) → IsValid s → Safe IsValid (set_mode s m)
unfolding set_mode
set_mode-Safe s m v =
    Safe-if (m == 1) (λ _. safe (ground arith))
      λ _.
        Safe-if (m == 6) (λ _. safe (cursor_set-IsValid _ _ (ground arith)))
          λ _.
            Safe-if (m == 7) (λ _. safe (ground arith))
              λ _.
                Safe-if (m == 25) (λ _. safe (ground arith))
                  λ _.
                    Safe-if (m == 47 || m == 1047 || m == 1049) (λ _. alt_on-Safe s v)
                      λ _.
                        Safe-if (m == 1000) (λ _. safe (ground arith))
                          λ _.
                            Safe-if (m == 1002) (λ _. safe (ground arith))
                              λ _.
                                Safe-if (m == 1003) (λ _. safe (ground arith))
                                  λ _.
                                    Safe-if (m == 1006) (λ _. safe (ground arith))
                                      λ _.
                                        Safe-if (m == 2004) (λ _. safe (ground arith)) (λ _. safe v)

reset_mode-Safe : (s : Screen) (m : ℕ) → IsValid s → Safe IsValid (reset_mode s m)
unfolding reset_mode
reset_mode-Safe s m v =
    Safe-if (m == 1) (λ _. safe (ground arith))
      λ _.
        Safe-if (m == 6) (λ _. safe (cursor_set-IsValid _ _ (ground arith)))
          λ _.
            Safe-if (m == 7) (λ _. safe (ground arith))
              λ _.
                Safe-if (m == 25) (λ _. safe (ground arith))
                  λ _.
                    Safe-if (m == 47 || m == 1047 || m == 1049) (λ _. alt_off-Safe s v)
                      λ _.
                        Safe-if (m == 1000 || m == 1002 || m == 1003) (λ _. safe (ground arith))
                          λ _.
                            Safe-if (m == 1006)
                              (λ _. safe (if_either IsValid (s.mouse_enc == 2) (ground arith) v))
                              λ _. Safe-if (m == 2004) (λ _. safe (ground arith)) (λ _. safe v)

pub private_set-Safe :
    (n : ℕ) (params : Buffer ℕ) (i : ℕ) (s : Screen)
    → IsValid s
    → i + n ≤ params.size
    → Safe IsValid (private_set n params i s)
unfolding private_set
private_set-Safe zero params i s v h = safe v
private_set-Safe (suc n) params i s v h = Safe-bind (read-Safe params i (omega arith)) λ m _.
    Safe-bind (set_mode-Safe s m v) λ t w. private_set-Safe n params (i + 1) t w (omega arith)

pub private_reset-Safe :
    (n : ℕ) (params : Buffer ℕ) (i : ℕ) (s : Screen)
    → IsValid s
    → i + n ≤ params.size
    → Safe IsValid (private_reset n params i s)
unfolding private_reset
private_reset-Safe zero params i s v h = safe v
private_reset-Safe (suc n) params i s v h = Safe-bind (read-Safe params i (omega arith)) λ m _.
    Safe-bind (reset_mode-Safe s m v) λ t w. private_reset-Safe n params (i + 1) t w (omega arith)
