-- ===== src/Vt/Init.antt =====
-- A fresh screen and a fresh parser (_lib/vt.c, scr_init, vt_init and vt_init_view). Allocations are
-- taken to succeed.
use u.Common.{ℕ, ◌-◌, Bool, true, false, Option, none, some, [], if◌then◌else◌, ◌>>=◌}
use u.Common.Buffer.{filled}
use u.Vt.Types.{
  Screen, VtParser, VtState, color_default, vt_max_params, vt_max_inter, vt_max_osc, tab_bytes,
}
use u.Vt.Cells.{alloc_cells}
use u.Vt.Tabs.{tabs_reset}

unfoldable pub scr_init : ℕ → ℕ → Bool → Screen
unfolding alloc_cells
scr_init rows cols history = record {
  cells = alloc_cells rows cols;
  alt_cells = none;
  rows = rows;
  cols = cols;
  cur_row = 0;
  cur_col = 0;
  cur_visible = true;
  pending_wrap = false;
  origin_mode = false;
  auto_wrap = true;
  app_cursor = false;
  bracketed_paste = false;
  mouse_mode = 0;
  mouse_enc = 0;
  insert_mode = false;
  in_alt_screen = false;
  scroll_top = 0;
  scroll_bottom = rows - 1;
  cur_fg = color_default;
  cur_bg = color_default;
  cur_attrs = 0;
  saved_row = 0;
  saved_col = 0;
  saved_fg = 0;
  saved_bg = 0;
  saved_attrs = 0;
  saved_wrap = false;
  alt_saved_row = 0;
  alt_saved_col = 0;
  alt_saved_fg = 0;
  alt_saved_bg = 0;
  alt_saved_attrs = 0;
  title = [];
  row_flags = some (filled rows 0);
  alt_row_flags = none;
  scrollback = if history then some [] else none;
}

-- `vt_init` (with a scrollback) and `vt_init_view` (without)
unfoldable pub vt_start : Bool → ℕ → ℕ → Option VtParser
vt_start history rows cols = do
  t ← tabs_reset (filled tab_bytes 0) cols
  some (record {
    state = VtState.ground_state;
    params = filled vt_max_params 0;
    num_params = 0;
    inter = filled vt_max_inter 0;
    num_inter = 0;
    priv = false;
    osc = filled vt_max_osc 0;
    osc_len = 0;
    utf8_buf = filled 4 0;
    utf8_len = 0;
    utf8_want = 0;
    tabstops = t;
    cpr_requested = false;
    last_graphic = 0;
    g0_dec = false;
    esc_inter = 0;
    scr = scr_init rows cols history;
  })

unfoldable pub vt_init : ℕ → ℕ → Option VtParser
vt_init rows cols = vt_start true rows cols

unfoldable pub vt_init_view : ℕ → ℕ → Option VtParser
vt_init_view rows cols = vt_start false rows cols
