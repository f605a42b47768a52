-- ===== src/Vt/Safety/Resize.antt =====
-- Resizing without reflow is safe, keeps the screen well-formed and keeps the cells that fit.
use u.Common.{
  ℕ, ◌≤◌, ◌<◌, ◌≡◌, refl, Bool, Option, some, none, arith, Safe, safe, Safe-bind, Safe-if,
  Safe-check, ◌==◌, ◌&&◌,
}
use mathlib.Core.Option
use u.Common.Buffer.{Buffer}
use u.Vt.Types.{Grid, Screen, VtParser}
use u.Vt.Cells.{alloc_cells}
use u.Vt.Resize.{
  resize_grid, resize_region, resize_alt, resize_plain, vt_resize_plain, resize_flags,
}
use u.Vt.Safety.{IsValid, ParserValid, FlagsFit, AltFits}
use u.Vt.Safety.Control.{tabs_reset-Safe}

-- A grid of the new size with the cells of the old one that fit.
pub record ResizedGrid (g g' : Grid) (rows cols : ℕ) : Type 0 where
  pub height_eq : g'.height ≡ rows
  pub width_eq : g'.width ≡ cols
  pub kept : (i j : ℕ) → i < g.height → j < g.width → i < rows → j < cols → g'.at i j ≡ g.at i j

resize_grid-Resized :
    (g : Grid) (old_rows old_cols rows cols : ℕ)
    → g.height ≡ old_rows
    → g.width ≡ old_cols
    → Safe (λ g'. ResizedGrid g g' rows cols) (resize_grid g old_rows old_cols rows cols)
unfolding resize_grid alloc_cells
resize_grid-Resized g old_rows old_cols rows cols h w =
    Safe-check _ _ (ground arith)
      (record { height_eq = refl; width_eq = refl; kept = λ i j a b c d. ground arith })

resize_region-fits :
    (s : Screen) (rows : ℕ)
    → IsValid s
    → 1 ≤ rows
    → ((resize_region s rows).0 ≤ (resize_region s rows).1) × ((resize_region s rows).1 < rows)
unfolding resize_region
resize_region-fits s rows v h = ground arith

pub flags_fit :
    (old new : ℕ) (f : Option (Buffer ℕ)) → FlagsFit new (Option.map (resize_flags old new) f)
flags_fit old new none = tt
flags_fit old new (some f) = refl

pub alt_fit :
    (g : Option Grid) (in_alt : Bool) (old_rows old_cols rows cols : ℕ)
    → AltFits old_rows old_cols in_alt g
    → Safe (AltFits rows cols in_alt) (resize_alt g old_rows old_cols rows cols)
unfolding resize_alt
alt_fit none in_alt old_rows old_cols rows cols h = safe h
alt_fit (some g) in_alt old_rows old_cols rows cols h =
    Safe-bind (resize_grid-Resized g old_rows old_cols rows cols h.0 h.1)
      λ g' r. safe (r.height_eq, r.width_eq)

-- What a screen of the new size is, before the flags of the other grid are resized.
pub record Resized (s t : Screen) (rows cols : ℕ) : Type 0 where
  pub rows_eq : t.rows ≡ rows
  pub cols_eq : t.cols ≡ cols
  pub text_eq : t.scrollback ≡ s.scrollback
  pub valid :
      (fl : Option (Buffer ℕ)) → FlagsFit rows fl → IsValid (record t { alt_row_flags = fl })
  pub grid : ResizedGrid s.cells t.cells rows cols

pub resize_plain-Resized :
    (s : Screen) (rows cols : ℕ)
    → IsValid s
    → 1 ≤ rows
    → 2 ≤ cols
    → Safe (λ t. Resized s t rows cols) (resize_plain s rows cols)
unfolding resize_plain
resize_plain-Resized s rows cols v h k =
    Safe-bind (resize_grid-Resized s.cells s.rows s.cols rows cols v.height_eq v.width_eq) λ g r.
      Safe-bind (alt_fit s.alt_cells s.in_alt_screen s.rows s.cols rows cols v.alt_fit) λ o f.
        let reg = resize_region-fits s rows v h in
        safe (record {
          rows_eq = refl;
          cols_eq = refl;
          text_eq = refl;
          valid = λ fl e. record {
            height_eq = r.height_eq;
            width_eq = r.width_eq;
            rows_pos = h;
            cols_min = k;
            row_in = ground arith;
            col_in = ground arith;
            top_le = reg.0;
            bottom_in = reg.1;
            saved_row_in = ground arith;
            saved_col_in = ground arith;
            alt_saved_row_in = ground arith;
            alt_saved_col_in = ground arith;
            flags_fit = flags_fit s.rows rows s.row_flags;
            alt_flags_fit = e;
            alt_fit = f;
            text_fit = v.text_fit;
          };
          grid = record { height_eq = r.height_eq; width_eq = r.width_eq; kept = r.kept };
        })

-- Resizing a well-formed terminal to at least one row and two columns, without reflow, makes no
-- access outside an array and gives a well-formed terminal of the size asked for, in which every cell
-- that is in both grids is what it was.
pub vt_resize_plain-Safe :
    (p : VtParser) (rows cols : ℕ)
    → ParserValid p
    → 1 ≤ rows
    → 2 ≤ cols
    → Safe
        (λ q.
          ParserValid q
          × (q.scr.rows ≡ rows)
          × (q.scr.cols ≡ cols)
          × ResizedGrid p.scr.cells q.scr.cells rows cols)
        (vt_resize_plain p rows cols)
unfolding vt_resize_plain
vt_resize_plain-Safe p rows cols v h k =
    Safe-if (rows == p.scr.rows && cols == p.scr.cols)
      (λ e.
        let h' = v.screen.height_eq in
        let w' = v.screen.width_eq in
        safe (
          v,
          ground arith,
          ground arith,
          record { height_eq = ground arith; width_eq = ground arith; kept = λ i j _ _ _ _. refl },
        ))
      (λ e. Safe-bind (resize_plain-Resized p.scr rows cols v.screen h k) λ s r.
        Safe-bind (tabs_reset-Safe p.tabstops cols v.tabs_size) λ t w. safe (
          record {
            params_size = v.params_size;
            num_params_le = v.num_params_le;
            inter_size = v.inter_size;
            num_inter_le = v.num_inter_le;
            osc_size = v.osc_size;
            osc_len_lt = v.osc_len_lt;
            utf8_size = v.utf8_size;
            carry_fits = v.carry_fits;
            tabs_size = w;
            screen = r.valid _ (flags_fit p.scr.rows rows s.alt_row_flags);
          },
          r.rows_eq,
          r.cols_eq,
          r.grid,
        ))
