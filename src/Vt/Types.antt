-- ===== src/Vt/Types.antt =====
-- The data of _lib/vt.h: cells, the two screen grids, the screen and the parser.
-- An `int` field that the code never leaves negative is a number; a bitmask is the number of its
-- bits; a pointer that may be NULL is an option.
use u.Common.{ℕ, Bool, Option, List}
use u.Common.Buffer.{Buffer}

abbrev pub row_wrapped : ℕ
row_wrapped = 0x01

abbrev pub cell_wide : ℕ
cell_wide = 0x01

abbrev pub cell_wide_cont : ℕ
cell_wide_cont = 0x02

abbrev pub cell_fg_dfl : ℕ
cell_fg_dfl = 0x04

abbrev pub cell_bg_dfl : ℕ
cell_bg_dfl = 0x08

abbrev pub cell_pad : ℕ
cell_pad = 0x10

abbrev pub color_default : ℕ
color_default = 256

abbrev pub vt_max_params : ℕ
vt_max_params = 16

abbrev pub vt_max_inter : ℕ
vt_max_inter = 4

abbrev pub vt_max_osc : ℕ
vt_max_osc = 1024

abbrev pub vt_max_cols : ℕ
vt_max_cols = 512

-- `VT_MAX_COLS / 8 + 1`
abbrev pub tab_bytes : ℕ
tab_bytes = 65

abbrev pub scrollback_bytes : ℕ
scrollback_bytes = 32768

pub record Cell : Type 0 where
  pub ch : ℕ
  pub fg : ℕ
  pub bg : ℕ
  pub attrs : ℕ
  pub flags : ℕ

-- An allocation of `alloc_cells`: its dimensions, and the cells in the order of the row pointers.
pub record Grid : Type 0 where
  pub height : ℕ
  pub width : ℕ
  pub at : ℕ → ℕ → Cell

pub record Screen : Type 0 where
  pub cells : Grid
  pub alt_cells : Option Grid
  pub rows : ℕ
  pub cols : ℕ
  pub cur_row : ℕ
  pub cur_col : ℕ
  pub cur_visible : Bool
  pub pending_wrap : Bool
  pub origin_mode : Bool
  pub auto_wrap : Bool
  pub app_cursor : Bool
  pub bracketed_paste : Bool
  pub mouse_mode : ℕ
  pub mouse_enc : ℕ
  pub insert_mode : Bool
  pub in_alt_screen : Bool
  pub scroll_top : ℕ
  pub scroll_bottom : ℕ
  pub cur_fg : ℕ
  pub cur_bg : ℕ
  pub cur_attrs : ℕ
  pub saved_row : ℕ
  pub saved_col : ℕ
  pub saved_fg : ℕ
  pub saved_bg : ℕ
  pub saved_attrs : ℕ
  pub saved_wrap : Bool
  pub alt_saved_row : ℕ
  pub alt_saved_col : ℕ
  pub alt_saved_fg : ℕ
  pub alt_saved_bg : ℕ
  pub alt_saved_attrs : ℕ
  -- the bytes of the C string
  pub title : List ℕ
  pub row_flags : Option (Buffer ℕ)
  pub alt_row_flags : Option (Buffer ℕ)
  -- the bytes in use, `scrollback_len` of them
  pub scrollback : Option (List ℕ)

pub data VtState : Type 0 where
  ground_state esc_state esc_inter_state csi_param csi_inter osc_state dcs_state : VtState

pub record VtParser : Type 0 where
  pub state : VtState
  pub params : Buffer ℕ
  pub num_params : ℕ
  pub inter : Buffer ℕ
  pub num_inter : ℕ
  pub priv : Bool
  pub osc : Buffer ℕ
  pub osc_len : ℕ
  pub utf8_buf : Buffer ℕ
  pub utf8_len : ℕ
  pub utf8_want : ℕ
  pub tabstops : Buffer ℕ
  pub cpr_requested : Bool
  pub last_graphic : ℕ
  pub g0_dec : Bool
  pub esc_inter : ℕ
  pub scr : Screen
