-- ===== src/Vt/Wire/Serial.antt =====
-- vt_serialize and vt_deserialize (_lib/vt.c). `none` is an access outside an array, the return of
-- -1 where the bytes end too early, or a state number that is no state. The bytes of a title after
-- its NUL, which nothing reads, are put as zeros.
use u.Common.{ℕ, Option, some, List, ◌>>=◌}
use u.Vt.Types.{Screen, VtParser, VtState, vt_max_params, vt_max_inter, vt_max_osc, tab_bytes}
use u.Vt.Init.{vt_init}
use u.Vt.Wire.{
  VtWire, ScreenWire, get_le, put_array, get_array, put_vt_wire, get_vt_wire, put_screen_wire,
  get_screen_wire, from_bool, to_bool, state_number, to_vt_state, title_size,
}
use u.Vt.Wire.Rows.{put_grid, get_rows, put_alt, get_alt, array_of, copy_in, padded, until_nul}

unfoldable pub vt_wire_of : VtParser → Option VtWire
vt_wire_of p = do
  params' ← array_of p.params vt_max_params
  inter' ← array_of p.inter vt_max_inter
  utf8_buf' ← array_of p.utf8_buf 4
  tabstops' ← array_of p.tabstops tab_bytes
  some (record {
    state = state_number p.state;
    params = params';
    num_params = p.num_params;
    inter = inter';
    num_inter = p.num_inter;
    priv = from_bool p.priv;
    osc_len = p.osc_len;
    utf8_buf = utf8_buf';
    utf8_len = p.utf8_len;
    utf8_want = p.utf8_want;
    tabstops = tabstops';
    cpr_requested = from_bool p.cpr_requested;
    g0_dec = from_bool p.g0_dec;
    esc_inter = p.esc_inter;
  })

unfoldable pub screen_wire_of : Screen → ScreenWire
screen_wire_of s = record {
  rows = s.rows;
  cols = s.cols;
  cur_row = s.cur_row;
  cur_col = s.cur_col;
  cur_visible = from_bool s.cur_visible;
  pending_wrap = from_bool s.pending_wrap;
  origin_mode = from_bool s.origin_mode;
  auto_wrap = from_bool s.auto_wrap;
  app_cursor = from_bool s.app_cursor;
  bracketed_paste = from_bool s.bracketed_paste;
  insert_mode = from_bool s.insert_mode;
  in_alt_screen = from_bool s.in_alt_screen;
  mouse_mode = s.mouse_mode;
  mouse_enc = s.mouse_enc;
  scroll_top = s.scroll_top;
  scroll_bottom = s.scroll_bottom;
  cur_fg = s.cur_fg;
  cur_bg = s.cur_bg;
  cur_attrs = s.cur_attrs;
  saved_row = s.saved_row;
  saved_col = s.saved_col;
  saved_fg = s.saved_fg;
  saved_bg = s.saved_bg;
  saved_attrs = s.saved_attrs;
  saved_wrap = from_bool s.saved_wrap;
  alt_saved_row = s.alt_saved_row;
  alt_saved_col = s.alt_saved_col;
  alt_saved_fg = s.alt_saved_fg;
  alt_saved_bg = s.alt_saved_bg;
  alt_saved_attrs = s.alt_saved_attrs;
  title = padded title_size s.title;
}

-- The screen's fields are restored over those of the fresh screen.
unfoldable pub restore_screen : Screen → ScreenWire → Screen
restore_screen s w = record s {
  cur_row = w.cur_row;
  cur_col = w.cur_col;
  cur_visible = to_bool w.cur_visible;
  pending_wrap = to_bool w.pending_wrap;
  origin_mode = to_bool w.origin_mode;
  auto_wrap = to_bool w.auto_wrap;
  app_cursor = to_bool w.app_cursor;
  bracketed_paste = to_bool w.bracketed_paste;
  insert_mode = to_bool w.insert_mode;
  in_alt_screen = to_bool w.in_alt_screen;
  mouse_mode = w.mouse_mode;
  mouse_enc = w.mouse_enc;
  scroll_top = w.scroll_top;
  scroll_bottom = w.scroll_bottom;
  cur_fg = w.cur_fg;
  cur_bg = w.cur_bg;
  cur_attrs = w.cur_attrs;
  saved_row = w.saved_row;
  saved_col = w.saved_col;
  saved_fg = w.saved_fg;
  saved_bg = w.saved_bg;
  saved_attrs = w.saved_attrs;
  saved_wrap = to_bool w.saved_wrap;
  alt_saved_row = w.alt_saved_row;
  alt_saved_col = w.alt_saved_col;
  alt_saved_fg = w.alt_saved_fg;
  alt_saved_bg = w.alt_saved_bg;
  alt_saved_attrs = w.alt_saved_attrs;
  title = until_nul w.title;
}

unfoldable pub restore_parser : VtParser → VtState → VtWire → List ℕ → ScreenWire → Option VtParser
restore_parser p st w osc_buf sw = do
  params' ← copy_in p.params w.params
  inter' ← copy_in p.inter w.inter
  utf8_buf' ← copy_in p.utf8_buf w.utf8_buf
  tabstops' ← copy_in p.tabstops w.tabstops
  osc' ← copy_in p.osc osc_buf
  some (record p {
    state = st;
    num_params = w.num_params;
    num_inter = w.num_inter;
    priv = to_bool w.priv;
    osc_len = w.osc_len;
    utf8_len = w.utf8_len;
    utf8_want = w.utf8_want;
    cpr_requested = to_bool w.cpr_requested;
    g0_dec = to_bool w.g0_dec;
    esc_inter = w.esc_inter;
    params = params';
    inter = inter';
    utf8_buf = utf8_buf';
    tabstops = tabstops';
    osc = osc';
    scr = restore_screen p.scr sw;
  })

-- The bytes of a terminal, before those that follow.
unfoldable pub vt_serialize : VtParser → List ℕ → Option (List ℕ)
vt_serialize p rest = do
  let s = p.scr
  vw ← vt_wire_of p
  osc_bytes ← array_of p.osc vt_max_osc
  after ← put_alt s.alt_cells s.rows s.cols rest
  grid_bytes ← put_grid s.cells s.rows s.cols after
  some (put_vt_wire vw (put_array 1 osc_bytes (put_screen_wire (screen_wire_of s) grid_bytes)))

-- The terminal that is read, with the bytes that follow.
unfoldable pub vt_deserialize : List ℕ → Option (VtParser × List ℕ)
vt_deserialize r0 = do
  (vw, r1) ← get_vt_wire r0
  (osc_buf, r2) ← get_array 1 vt_max_osc r1
  (sw, r3) ← get_screen_wire r2
  fresh ← vt_init sw.rows sw.cols
  st ← to_vt_state vw.state
  p ← restore_parser fresh st vw osc_buf sw
  (g, r4) ← get_rows p.scr.cols 0 p.scr.rows p.scr.cells r3
  (has_alt, r5) ← get_le 1 r4
  (alt, r6) ← get_alt has_alt p.scr.alt_cells p.scr.rows p.scr.cols r5
  some (record p { scr = record p.scr { cells = g; alt_cells = alt } }, r6)
