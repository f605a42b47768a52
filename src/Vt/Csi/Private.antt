-- ===== src/Vt/Csi/Private.antt =====
-- The cases of dispatch_csi (_lib/vt.c) for `CSI ? … h` and `CSI ? … l`, and the alternate screen.
-- MOUSE_UTF8_URXVT_ENCODINGS is off, as in _lib/xterm_conf.h.
use u.Common.{
  ℕ, zero, suc, ◌+◌, ◌-◌, true, false, not, Option, none, some, ◌||◌, ◌==◌, if◌then◌else◌, ◌>>=◌,
}
use u.Common.Buffer.{Buffer, filled, read}
use u.Common.Int.{pos}
use u.Vt.Types.{Screen}
use u.Vt.Cells.{alloc_cells, clear_rows}
use u.Vt.Scroll.{with_flags, cursor_set}

-- A missing alternate grid is a fault: the code would go on with a NULL grid.
unfoldable pub alt_swap : Screen → Option Screen
alt_swap s = elim s.alt_cells [
  | none ↦ none
  | some g ↦ some (record s {
    cells = g;
    alt_cells = some s.cells;
    row_flags = s.alt_row_flags;
    alt_row_flags = s.row_flags;
    in_alt_screen = not s.in_alt_screen;
  })
]

-- The second grid and its flags are made when first needed.
abbrev pub alt_ready : Screen → Screen
alt_ready s = record s {
  alt_cells = elim s.alt_cells [ none ↦ some (alloc_cells s.rows s.cols) | some g ↦ some g ];
  alt_row_flags = elim s.alt_row_flags [ none ↦ some (filled s.rows 0) | some f ↦ some f ];
}

unfoldable pub alt_enter : Screen → Option Screen
alt_enter s = do
  t ← alt_swap (alt_ready s)
  flags ← with_flags t.row_flags (λ f. some (record f { at = λ i. 0 }))
  some (record t { row_flags = flags })

abbrev pub alt_save : Screen → Screen
alt_save s = record s {
  alt_saved_row = s.cur_row;
  alt_saved_col = s.cur_col;
  alt_saved_fg = s.cur_fg;
  alt_saved_bg = s.cur_bg;
  alt_saved_attrs = s.cur_attrs;
}

-- `?47h`, `?1047h` and `?1049h`
unfoldable pub alt_on : Screen → Option Screen
alt_on s = if s.in_alt_screen then some s else (do
  t ← alt_enter (alt_save s)
  g ← clear_rows t t.cells 0 t.rows
  some (record t {
    cells = g;
    cur_row = 0;
    cur_col = 0;
    scroll_top = 0;
    scroll_bottom = t.rows - 1;
  }))

-- `?47l`, `?1047l` and `?1049l`
unfoldable pub alt_off : Screen → Option Screen
alt_off s =
    if s.in_alt_screen
    then (do
      t ← alt_swap s
      some (record t {
        cur_row = t.alt_saved_row;
        cur_col = t.alt_saved_col;
        cur_fg = t.alt_saved_fg;
        cur_bg = t.alt_saved_bg;
        cur_attrs = t.alt_saved_attrs;
      }))
    else some s

unfoldable pub set_mode : Screen → ℕ → Option Screen
set_mode s v =
    if v == 1
    then some (record s { app_cursor = true })
    else if v == 6
    then some (cursor_set (record s { origin_mode = true }) (pos s.scroll_top) (pos 0))
    else if v == 7
    then some (record s { auto_wrap = true })
    else if v == 25
    then some (record s { cur_visible = true })
    else if v == 47 || v == 1047 || v == 1049
    then alt_on s
    else if v == 1000
    then some (record s { mouse_mode = 1 })
    else if v == 1002
    then some (record s { mouse_mode = 2 })
    else if v == 1003
    then some (record s { mouse_mode = 3 })
    else if v == 1006
    then some (record s { mouse_enc = 2 })
    else if v == 2004
    then some (record s { bracketed_paste = true })
    else some s

unfoldable pub reset_mode : Screen → ℕ → Option Screen
reset_mode s v =
    if v == 1
    then some (record s { app_cursor = false })
    else if v == 6
    then some (cursor_set (record s { origin_mode = false }) (pos 0) (pos 0))
    else if v == 7
    then some (record s { auto_wrap = false })
    else if v == 25
    then some (record s { cur_visible = false })
    else if v == 47 || v == 1047 || v == 1049
    then alt_off s
    else if v == 1000 || v == 1002 || v == 1003
    then some (record s { mouse_mode = 0 })
    else if v == 1006
    then some (if s.mouse_enc == 2 then record s { mouse_enc = 0 } else s)
    else if v == 2004
    then some (record s { bracketed_paste = false })
    else some s

-- The loops over the parameters from `i`, with the parameters left.
unfoldable pub private_set : ℕ → Buffer ℕ → ℕ → Screen → Option Screen
private_set zero params i s = some s
private_set (suc n) params i s = do
  v ← read params i
  s' ← set_mode s v
  private_set n params (i + 1) s'

unfoldable pub private_reset : ℕ → Buffer ℕ → ℕ → Screen → Option Screen
private_reset zero params i s = some s
private_reset (suc n) params i s = do
  v ← read params i
  s' ← reset_mode s v
  private_reset n params (i + 1) s'
