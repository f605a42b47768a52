-- ===== src/Vt/Resize.antt =====
-- Resizing without reflow (_lib/vt.c: resize_grid, the default branch of scr_resize, vt_resize), as
-- it is done on the alternate screen and on a screen without a scrollback.
use u.Common.{ℕ, ◌-◌, Option, some, none, false, ◌&&◌, ◌==◌, ltb, leb, if◌then◌else◌, check, ◌>>=◌}
use mathlib.Core.Option
use u.Common.Buffer.{Buffer}
use u.Vt.Types.{Grid, Screen, VtParser}
use u.Vt.Cells.{alloc_cells}
use u.Vt.Tabs.{tabs_reset}

-- `a < b ? a : b`
abbrev pub smaller : ℕ → ℕ → ℕ
smaller a b = if ltb a b then a else b

unfoldable pub resize_grid : Grid → ℕ → ℕ → ℕ → ℕ → Option Grid
resize_grid g old_rows old_cols new_rows new_cols =
    let copy_rows = smaller old_rows new_rows in
    let copy_cols = smaller old_cols new_cols in
    let fresh = alloc_cells new_rows new_cols in
    check (leb copy_rows g.height && leb copy_cols g.width) (record fresh {
      at = λ r c. if ltb r copy_rows && ltb c copy_cols then g.at r c else fresh.at r c;
    })

-- `realloc` to the new rows, the added ones zeroed
abbrev pub resize_flags : ℕ → ℕ → Buffer ℕ → Buffer ℕ
resize_flags old_rows new_rows f = record {
  size = new_rows;
  at = λ i. if ltb i old_rows then f.at i else 0;
}

-- A position at or past the end is put on the last place.
abbrev pub clamp : ℕ → ℕ → ℕ
clamp v n = if leb n v then n - 1 else v

-- The scroll region of `scr_resize`: top and bottom.
unfoldable pub resize_region : Screen → ℕ → ℕ × ℕ
resize_region s new_rows =
    if s.scroll_top == 0 && s.scroll_bottom == s.rows - 1
    then (0, new_rows - 1)
    else (let top = if leb new_rows s.scroll_top then 0 else s.scroll_top in
        let bottom = clamp s.scroll_bottom new_rows in
        (top, if ltb bottom top then new_rows - 1 else bottom))

-- `if (s->alt_cells)`
unfoldable pub resize_alt : Option Grid → ℕ → ℕ → ℕ → ℕ → Option (Option Grid)
resize_alt none old_rows old_cols new_rows new_cols = some none
resize_alt (some g) old_rows old_cols new_rows new_cols = do
  g' ← resize_grid g old_rows old_cols new_rows new_cols
  some (some g')

-- The default branch of `scr_resize`.
unfoldable pub resize_plain : Screen → ℕ → ℕ → Option Screen
resize_plain s new_rows new_cols = do
  cells' ← resize_grid s.cells s.rows s.cols new_rows new_cols
  alt' ← resize_alt s.alt_cells s.rows s.cols new_rows new_cols
  some (record s {
    cells = cells';
    alt_cells = alt';
    row_flags = Option.map (resize_flags s.rows new_rows) s.row_flags;
    rows = new_rows;
    cols = new_cols;
    cur_row = clamp s.cur_row new_rows;
    cur_col = clamp s.cur_col new_cols;
    pending_wrap =
        if leb new_rows s.cur_row
        then false
        else if leb new_cols s.cur_col
        then false
        else s.pending_wrap;
    scroll_top = (resize_region s new_rows).0;
    scroll_bottom = (resize_region s new_rows).1;
    saved_row = clamp s.saved_row new_rows;
    saved_col = clamp s.saved_col new_cols;
    alt_saved_row = clamp s.alt_saved_row new_rows;
    alt_saved_col = clamp s.alt_saved_col new_cols;
  })

-- `vt_resize` where `scr_resize` takes its default branch.
unfoldable pub vt_resize_plain : VtParser → ℕ → ℕ → Option VtParser
vt_resize_plain p rows cols = if rows == p.scr.rows && cols == p.scr.cols then some p else (do
  s ← resize_plain p.scr rows cols
  let s' = record s { alt_row_flags = Option.map (resize_flags p.scr.rows rows) s.alt_row_flags }
  t ← tabs_reset p.tabstops cols
  some (record p { scr = s'; tabstops = t }))
