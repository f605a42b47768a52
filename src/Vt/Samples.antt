-- ===== src/Vt/Samples.antt =====
-- A well-formed terminal, for the tests.
use u.Common.{true, false, none, some, [], ◌∷◌, arith}
use u.Common.Buffer.{filled}
use u.Vt.Types.{Screen, VtParser, ground_state, color_default}
use u.Vt.Cells.{fresh_cell}
use u.Vt.Wire.Represent.{IsRepresentable}
use u.Vt.Safety.{IsValid, ParserValid}

abbrev pub small : Screen
small = record {
  cells = record { height = 3; width = 4; at = λ r c. fresh_cell };
  alt_cells = none;
  rows = 3;
  cols = 4;
  cur_row = 1;
  cur_col = 2;
  cur_visible = true;
  pending_wrap = false;
  origin_mode = false;
  auto_wrap = true;
  app_cursor = false;
  bracketed_paste = false;
  mouse_mode = 0;
  mouse_enc = 0;
  insert_mode = false;
  in_alt_screen = false;
  scroll_top = 0;
  scroll_bottom = 2;
  cur_fg = color_default;
  cur_bg = color_default;
  cur_attrs = 0;
  saved_row = 0;
  saved_col = 0;
  saved_fg = 0;
  saved_bg = 0;
  saved_attrs = 0;
  saved_wrap = false;
  alt_saved_row = 0;
  alt_saved_col = 0;
  alt_saved_fg = 0;
  alt_saved_bg = 0;
  alt_saved_attrs = 0;
  title = [];
  row_flags = some (filled 3 0);
  alt_row_flags = none;
  scrollback = some (b'x' ∷ 0x0A ∷ []);
}

pub small-IsValid : IsValid small
small-IsValid = ground arith

-- In the middle of a three-byte character, with one parameter.
abbrev pub parser : VtParser
parser = record {
  state = ground_state;
  params = filled 16 31;
  num_params = 1;
  inter = filled 4 0;
  num_inter = 0;
  priv = false;
  osc = filled 1024 0;
  osc_len = 0;
  utf8_buf = filled 4 0xE2;
  utf8_len = 1;
  utf8_want = 3;
  tabstops = filled 65 1;
  cpr_requested = false;
  last_graphic = 0;
  g0_dec = false;
  esc_inter = 0;
  scr = small;
}

pub parser-ParserValid : ParserValid parser
parser-ParserValid = ground arith

pub parser-IsRepresentable : IsRepresentable parser
parser-IsRepresentable = record {
  params = λ i h. omega arith;
  inter = λ i h. omega arith;
  osc = λ i h. omega arith;
  utf8_buf = λ i h. omega arith;
  tabstops = λ i h. omega arith;
  utf8_len = omega arith;
  esc_inter = omega arith;
  rows = omega arith;
  cols = omega arith;
  mouse_mode = omega arith;
  mouse_enc = omega arith;
  cur_fg = omega arith;
  cur_bg = omega arith;
  cur_attrs = omega arith;
  saved_fg = omega arith;
  saved_bg = omega arith;
  saved_attrs = omega arith;
  alt_saved_fg = omega arith;
  alt_saved_bg = omega arith;
  alt_saved_attrs = omega arith;
  title_bytes = omega arith;
  title_chars = omega arith;
  title_length = omega arith;
  cells = λ i j a b. record {
    ch = omega arith;
    fg = omega arith;
    bg = omega arith;
    attrs = omega arith;
    flags = omega arith;
  };
  alt_cells = tt;
}
