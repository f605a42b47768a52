-- ===== src/Vt/Wire/Represent.antt =====
-- A terminal that is serialized is restored (_lib/vt.c, vt_serialize and vt_deserialize), but for the
-- flags of its rows, its scrollback and the character that REP repeats, which are not on the wire.
use u.Common.{ℕ, ◌≤◌, ◌<◌, ◌≡◌, refl, ◌≢◌, Option, none, some, arith, All, length}
use u.Common.Buffer.{Buffer}
use u.Vt.Types.{Grid, VtParser, VtState, vt_max_params, vt_max_inter, vt_max_osc, tab_bytes}
use u.Vt.Safety.{ParserValid}
use u.Vt.Wire.{VtWire, from_bool, state_number, to_vt_state, title_size}
use u.Vt.Wire.Numbers.{bool-Fits, Fits, ArrayFits, get_le_step}
use u.Vt.Wire.Structs.{VtWireFits, ScreenWireFits}
use u.Vt.Wire.Grids.{GridFits, All-elements, length-elements, padded-Fits}
use u.Vt.Wire.Serial.{vt_wire_of, screen_wire_of}
use u.Vt.Wire.Rows.{elements, array_of}

abbrev pub AltGridFits : Option Grid → ℕ → ℕ → Type 0
AltGridFits none rows cols = Unit
AltGridFits (some g) rows cols = GridFits g rows cols

-- The numbers of a terminal have the widths of their C types: the elements of the arrays are bytes
-- and parameters, the title is a C string of at most 255 bytes, and so on.
pub record IsRepresentable (p : VtParser) : Type 0 where
  pub params : (i : ℕ) → i < vt_max_params → Fits 4 (p.params.at i)
  pub inter : (i : ℕ) → i < vt_max_inter → Fits 1 (p.inter.at i)
  pub osc : (i : ℕ) → i < vt_max_osc → Fits 1 (p.osc.at i)
  pub utf8_buf : (i : ℕ) → i < 4 → Fits 1 (p.utf8_buf.at i)
  pub tabstops : (i : ℕ) → i < tab_bytes → Fits 1 (p.tabstops.at i)
  pub utf8_len : Fits 4 p.utf8_len
  pub esc_inter : Fits 1 p.esc_inter
  pub rows : Fits 4 p.scr.rows
  pub cols : Fits 4 p.scr.cols
  pub mouse_mode : Fits 1 p.scr.mouse_mode
  pub mouse_enc : Fits 1 p.scr.mouse_enc
  pub cur_fg : Fits 2 p.scr.cur_fg
  pub cur_bg : Fits 2 p.scr.cur_bg
  pub cur_attrs : Fits 1 p.scr.cur_attrs
  pub saved_fg : Fits 2 p.scr.saved_fg
  pub saved_bg : Fits 2 p.scr.saved_bg
  pub saved_attrs : Fits 1 p.scr.saved_attrs
  pub alt_saved_fg : Fits 2 p.scr.alt_saved_fg
  pub alt_saved_bg : Fits 2 p.scr.alt_saved_bg
  pub alt_saved_attrs : Fits 1 p.scr.alt_saved_attrs
  pub title_bytes : All (Fits 1) p.scr.title
  pub title_chars : All (λ c. c ≢ 0) p.scr.title
  pub title_length : length p.scr.title ≤ 255
  pub cells : GridFits p.scr.cells p.scr.rows p.scr.cols
  pub alt_cells : AltGridFits p.scr.alt_cells p.scr.rows p.scr.cols

unfoldable pub vt_wire : VtParser → VtWire
vt_wire p = record {
  state = state_number p.state;
  params = elements p.params.at 0 vt_max_params;
  num_params = p.num_params;
  inter = elements p.inter.at 0 vt_max_inter;
  num_inter = p.num_inter;
  priv = from_bool p.priv;
  osc_len = p.osc_len;
  utf8_buf = elements p.utf8_buf.at 0 4;
  utf8_len = p.utf8_len;
  utf8_want = p.utf8_want;
  tabstops = elements p.tabstops.at 0 tab_bytes;
  cpr_requested = from_bool p.cpr_requested;
  g0_dec = from_bool p.g0_dec;
  esc_inter = p.esc_inter;
}

pub array_of-elements :
    (b : Buffer ℕ) (n : ℕ) → b.size ≡ n → array_of b n ≡ some (elements b.at 0 n)
unfolding array_of
array_of-elements b n h = ground arith

pub vt_wire_of-some : (p : VtParser) → ParserValid p → vt_wire_of p ≡ some (vt_wire p)
unfolding vt_wire_of vt_wire
vt_wire_of-some p v = get_le_step _ (array_of-elements p.params vt_max_params v.params_size) (
    get_le_step _ (array_of-elements p.inter vt_max_inter v.inter_size) (
      get_le_step _ (array_of-elements p.utf8_buf 4 v.utf8_size)
        (get_le_step _ (array_of-elements p.tabstops tab_bytes v.tabs_size) refl)))

pub to_vt_state-state_number : (st : VtState) → to_vt_state (state_number st) ≡ some st
unfolding to_vt_state state_number
to_vt_state-state_number VtState.ground_state = refl
to_vt_state-state_number VtState.esc_state = refl
to_vt_state-state_number VtState.esc_inter_state = refl
to_vt_state-state_number VtState.csi_param = refl
to_vt_state-state_number VtState.csi_inter = refl
to_vt_state-state_number VtState.osc_state = refl
to_vt_state-state_number VtState.dcs_state = refl

state-Fits : (st : VtState) → Fits 4 (state_number st)
unfolding state_number
state-Fits st = ground arith

pub array_fits :
    (k n : ℕ) (f : ℕ → ℕ) → ((i : ℕ) → i < n → Fits k (f i)) → ArrayFits k n (elements f 0 n)
array_fits k n f h = (length-elements f 0 n, All-elements (Fits k) f 0 n λ i _ b. h i (omega arith))

pub vt_wire-fits : (p : VtParser) → ParserValid p → IsRepresentable p → VtWireFits (vt_wire p)
unfolding vt_wire
vt_wire-fits p v r = record {
  state = state-Fits p.state;
  params = array_fits 4 vt_max_params p.params.at r.params;
  num_params = omega (arith, v.num_params_le);
  inter = array_fits 1 vt_max_inter p.inter.at r.inter;
  num_inter = omega (arith, v.num_inter_le);
  priv = bool-Fits p.priv;
  osc_len = omega (arith, v.osc_len_lt);
  utf8_buf = array_fits 1 4 p.utf8_buf.at r.utf8_buf;
  utf8_len = r.utf8_len;
  utf8_want = ground (arith, v.carry_fits);
  tabstops = array_fits 1 tab_bytes p.tabstops.at r.tabstops;
  cpr_requested = bool-Fits p.cpr_requested;
  g0_dec = bool-Fits p.g0_dec;
  esc_inter = r.esc_inter;
}

pub screen_wire-fits :
    (p : VtParser) → ParserValid p → IsRepresentable p → ScreenWireFits (screen_wire_of p.scr)
unfolding screen_wire_of
screen_wire-fits p v r =
    let s = p.scr in
    let w = v.screen in
    record {
      rows = r.rows;
      cols = r.cols;
      cur_row = omega (arith, r.rows, w.row_in);
      cur_col = omega (arith, r.cols, w.col_in);
      cur_visible = bool-Fits s.cur_visible;
      pending_wrap = bool-Fits s.pending_wrap;
      origin_mode = bool-Fits s.origin_mode;
      auto_wrap = bool-Fits s.auto_wrap;
      app_cursor = bool-Fits s.app_cursor;
      bracketed_paste = bool-Fits s.bracketed_paste;
      insert_mode = bool-Fits s.insert_mode;
      in_alt_screen = bool-Fits s.in_alt_screen;
      mouse_mode = r.mouse_mode;
      mouse_enc = r.mouse_enc;
      scroll_top = omega (arith, r.rows, w.top_le, w.bottom_in);
      scroll_bottom = omega (arith, r.rows, w.bottom_in);
      cur_fg = r.cur_fg;
      cur_bg = r.cur_bg;
      cur_attrs = r.cur_attrs;
      saved_row = omega (arith, r.rows, w.saved_row_in);
      saved_col = omega (arith, r.cols, w.saved_col_in);
      saved_fg = r.saved_fg;
      saved_bg = r.saved_bg;
      saved_attrs = r.saved_attrs;
      saved_wrap = bool-Fits s.saved_wrap;
      alt_saved_row = omega (arith, r.rows, w.alt_saved_row_in);
      alt_saved_col = omega (arith, r.cols, w.alt_saved_col_in);
      alt_saved_fg = r.alt_saved_fg;
      alt_saved_bg = r.alt_saved_bg;
      alt_saved_attrs = r.alt_saved_attrs;
      title = padded-Fits title_size s.title r.title_bytes;
    }
