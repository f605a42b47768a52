-- ===== src/Vt/Csi/AltScreen.antt =====
-- Leaving the alternate screen brings the primary one back (_lib/vt.c, ?1049h and ?1049l).
use u.Common.{
  ◌≡◌, refl, true, false, Option, none, some, ◌>>=◌, arith, Safe, safe, Safe-bind, Safe-if,
  Safe-and,
}
use u.Vt.Types.{Grid, Screen}
use u.Vt.Csi.Private.{alt_swap, alt_ready, alt_save, alt_enter, alt_on, alt_off}
use u.Vt.Safety.{IsValid}
use u.Vt.Safety.Private.{alt_swap-Safe}
use u.Vt.Safety.Scroll.{with_flags-Safe}
use u.Vt.Cells.Bounds.{clear_rows-Safe}

-- Text, row flags, cursor and rendition are those of `s`, and the primary screen is shown.
pub record SamePrimary (s t : Screen) : Type 0 where
  pub cells_eq : t.cells ≡ s.cells
  pub flags_eq : t.row_flags ≡ s.row_flags
  pub row_eq : t.cur_row ≡ s.cur_row
  pub col_eq : t.cur_col ≡ s.cur_col
  pub fg_eq : t.cur_fg ≡ s.cur_fg
  pub bg_eq : t.cur_bg ≡ s.cur_bg
  pub attrs_eq : t.cur_attrs ≡ s.cur_attrs
  pub shown : t.in_alt_screen ≡ false

-- The alternate screen is shown over the primary one of `s`, which waits with its flags, cursor and
-- rendition.
pub record OnAlt (s t : Screen) : Type 0 where
  pub waiting : t.alt_cells ≡ some s.cells
  pub flags_waiting : t.alt_row_flags ≡ s.row_flags
  pub row_kept : t.alt_saved_row ≡ s.cur_row
  pub col_kept : t.alt_saved_col ≡ s.cur_col
  pub fg_kept : t.alt_saved_fg ≡ s.cur_fg
  pub bg_kept : t.alt_saved_bg ≡ s.cur_bg
  pub attrs_kept : t.alt_saved_attrs ≡ s.cur_attrs
  pub shown : t.in_alt_screen ≡ true

alt_swap-OnAlt :
    (s : Screen) → s.in_alt_screen ≡ false → Safe (OnAlt s) (alt_swap (alt_ready (alt_save s)))
unfolding alt_swap
alt_swap-OnAlt s e = go s.alt_cells refl
  where
    go : (o : Option Grid) → s.alt_cells ≡ o → Safe (OnAlt s) (alt_swap (alt_ready (alt_save s)))
    go none q = rw (q, alt_swap) (safe (ground arith))
    go (some g) q = rw (q, alt_swap) (safe (ground arith))

-- Entering the alternate screen leaves the primary one waiting.
pub alt_on-OnAlt : (s : Screen) → IsValid s → s.in_alt_screen ≡ false → Safe (OnAlt s) (alt_on s)
unfolding alt_on alt_enter
alt_on-OnAlt s v e =
    Safe-if s.in_alt_screen (λ q. absurd (cc q))
      λ _.
        Safe-bind {P = λ t. OnAlt s t × IsValid t}
          (Safe-bind (Safe-and (alt_swap-OnAlt s e) (alt_swap-Safe (alt_save s) (ground arith)))
            λ t (o, w).
              Safe-bind (with_flags-Safe t.rows t.row_flags w.flags_fit λ f ef. safe ef)
                λ fl ff. safe (ground arith, ground arith))
          λ t (o, w).
            Safe-bind (clear_rows-Safe t t.cells 0 t.rows (omega arith) (omega arith) (omega arith))
              λ g d. safe (ground arith)

-- From any screen over the primary one of `s`, leaving the alternate screen brings back the cells,
-- the row flags, the cursor and the rendition of `s`.
pub alt_off-SamePrimary : (s t : Screen) → OnAlt s t → Safe (SamePrimary s) (alt_off t)
unfolding alt_off alt_swap ◌>>=◌
alt_off-SamePrimary s t o = rw (o.shown, o.waiting, alt_swap, ◌>>=◌) (safe (ground arith))

-- Entering the alternate screen and leaving it again brings the primary one back, with its cursor.
pub alt_round_trip :
    (s : Screen) → IsValid s → s.in_alt_screen ≡ false → Safe (SamePrimary s) (alt_on s >>= alt_off)
alt_round_trip s v e = Safe-bind (alt_on-OnAlt s v e) λ t o. alt_off-SamePrimary s t o
