-- ===== src/Vt/Wire/Structs.antt =====
-- The packed structs are read back as they were put (_lib/vt.c, VTWire and ScreenWire).
use u.Common.{ℕ, ◌≡◌, refl, some, List}
use u.Vt.Types.{vt_max_params, vt_max_inter, tab_bytes}
use u.Vt.Wire.{
  VtWire, ScreenWire, put_vt_wire, get_vt_wire, put_screen_wire, get_screen_wire, title_size,
}
use u.Vt.Wire.Numbers.{Fits, ArrayFits, get_le_step, get_le-put_le, get_array-put_array}

pub record VtWireFits (w : VtWire) : Type 0 where
  pub state : Fits 4 w.state
  pub params : ArrayFits 4 vt_max_params w.params
  pub num_params : Fits 4 w.num_params
  pub inter : ArrayFits 1 vt_max_inter w.inter
  pub num_inter : Fits 4 w.num_inter
  pub priv : Fits 1 w.priv
  pub osc_len : Fits 4 w.osc_len
  pub utf8_buf : ArrayFits 1 4 w.utf8_buf
  pub utf8_len : Fits 4 w.utf8_len
  pub utf8_want : Fits 4 w.utf8_want
  pub tabstops : ArrayFits 1 tab_bytes w.tabstops
  pub cpr_requested : Fits 1 w.cpr_requested
  pub g0_dec : Fits 1 w.g0_dec
  pub esc_inter : Fits 1 w.esc_inter

pub get_vt_wire-put_vt_wire :
    (w : VtWire) (rest : List ℕ) → VtWireFits w → get_vt_wire (put_vt_wire w rest) ≡ some (w, rest)
unfolding get_vt_wire put_vt_wire
get_vt_wire-put_vt_wire w rest h = get_le_step _ (get_le-put_le 4 w.state _ h.state) (
    get_le_step _ (get_array-put_array 4 vt_max_params w.params _ h.params) (
      get_le_step _ (get_le-put_le 4 w.num_params _ h.num_params) (
        get_le_step _ (get_array-put_array 1 vt_max_inter w.inter _ h.inter) (
          get_le_step _ (get_le-put_le 4 w.num_inter _ h.num_inter) (
            get_le_step _ (get_le-put_le 1 w.priv _ h.priv) (
              get_le_step _ (get_le-put_le 4 w.osc_len _ h.osc_len) (
                get_le_step _ (get_array-put_array 1 4 w.utf8_buf _ h.utf8_buf) (
                  get_le_step _ (get_le-put_le 4 w.utf8_len _ h.utf8_len) (
                    get_le_step _ (get_le-put_le 4 w.utf8_want _ h.utf8_want) (
                      get_le_step _ (get_array-put_array 1 tab_bytes w.tabstops _ h.tabstops) (
                        get_le_step _ (get_le-put_le 1 w.cpr_requested _ h.cpr_requested) (
                          get_le_step _ (get_le-put_le 1 w.g0_dec _ h.g0_dec) (
                            get_le_step _ (get_le-put_le 1 w.esc_inter _ h.esc_inter)
                              (refl))))))))))))))

pub record ScreenWireFits (w : ScreenWire) : Type 0 where
  pub rows : Fits 4 w.rows
  pub cols : Fits 4 w.cols
  pub cur_row : Fits 4 w.cur_row
  pub cur_col : Fits 4 w.cur_col
  pub cur_visible : Fits 1 w.cur_visible
  pub pending_wrap : Fits 1 w.pending_wrap
  pub origin_mode : Fits 1 w.origin_mode
  pub auto_wrap : Fits 1 w.auto_wrap
  pub app_cursor : Fits 1 w.app_cursor
  pub bracketed_paste : Fits 1 w.bracketed_paste
  pub insert_mode : Fits 1 w.insert_mode
  pub in_alt_screen : Fits 1 w.in_alt_screen
  pub mouse_mode : Fits 1 w.mouse_mode
  pub mouse_enc : Fits 1 w.mouse_enc
  pub scroll_top : Fits 4 w.scroll_top
  pub scroll_bottom : Fits 4 w.scroll_bottom
  pub cur_fg : Fits 2 w.cur_fg
  pub cur_bg : Fits 2 w.cur_bg
  pub cur_attrs : Fits 1 w.cur_attrs
  pub saved_row : Fits 4 w.saved_row
  pub saved_col : Fits 4 w.saved_col
  pub saved_fg : Fits 2 w.saved_fg
  pub saved_bg : Fits 2 w.saved_bg
  pub saved_attrs : Fits 1 w.saved_attrs
  pub saved_wrap : Fits 1 w.saved_wrap
  pub alt_saved_row : Fits 4 w.alt_saved_row
  pub alt_saved_col : Fits 4 w.alt_saved_col
  pub alt_saved_fg : Fits 2 w.alt_saved_fg
  pub alt_saved_bg : Fits 2 w.alt_saved_bg
  pub alt_saved_attrs : Fits 1 w.alt_saved_attrs
  pub title : ArrayFits 1 title_size w.title

pub get_screen_wire-put_screen_wire :
    (w : ScreenWire) (rest : List ℕ)
    → ScreenWireFits w
    → get_screen_wire (put_screen_wire w rest) ≡ some (w, rest)
unfolding get_screen_wire put_screen_wire
get_screen_wire-put_screen_wire w rest h = get_le_step _ (get_le-put_le 4 w.rows _ h.rows) (
    get_le_step _ (get_le-put_le 4 w.cols _ h.cols) (
      get_le_step _ (get_le-put_le 4 w.cur_row _ h.cur_row) (
        get_le_step _ (get_le-put_le 4 w.cur_col _ h.cur_col) (
          get_le_step _ (get_le-put_le 1 w.cur_visible _ h.cur_visible) (
            get_le_step _ (get_le-put_le 1 w.pending_wrap _ h.pending_wrap) (
              get_le_step _ (get_le-put_le 1 w.origin_mode _ h.origin_mode) (
                get_le_step _ (get_le-put_le 1 w.auto_wrap _ h.auto_wrap) (
                  get_le_step _ (get_le-put_le 1 w.app_cursor _ h.app_cursor) (
                    get_le_step _ (get_le-put_le 1 w.bracketed_paste _ h.bracketed_paste) (
                      get_le_step _ (get_le-put_le 1 w.insert_mode _ h.insert_mode) (
                        get_le_step _ (get_le-put_le 1 w.in_alt_screen _ h.in_alt_screen) (
                          get_le_step _ (get_le-put_le 1 w.mouse_mode _ h.mouse_mode) (
                            get_le_step _ (get_le-put_le 1 w.mouse_enc _ h.mouse_enc) (
                              get_le_step _ (get_le-put_le 4 w.scroll_top _ h.scroll_top) (
                                get_le_step _ (get_le-put_le 4 w.scroll_bottom _ h.scroll_bottom) (
                                  get_le_step _ (get_le-put_le 2 w.cur_fg _ h.cur_fg) (
                                    get_le_step _ (get_le-put_le 2 w.cur_bg _ h.cur_bg) (
                                      get_le_step _ (get_le-put_le 1 w.cur_attrs _ h.cur_attrs) (
                                        get_le_step _ (get_le-put_le 4 w.saved_row _ h.saved_row) (
                                          get_le_step _ (get_le-put_le 4 w.saved_col _ h.saved_col)
                                            (get_le_step _ (get_le-put_le 2 w.saved_fg _ h.saved_fg)
                                              (get_le_step _
                                                (get_le-put_le 2 w.saved_bg _ h.saved_bg)
                                                (get_le_step _
                                                  (get_le-put_le 1 w.saved_attrs _ h.saved_attrs)
                                                  (get_le_step _
                                                    (get_le-put_le 1 w.saved_wrap _ h.saved_wrap)
                                                    (get_le_step _
                                                      (get_le-put_le 4 w.alt_saved_row _
                                                        h.alt_saved_row)
                                                      (get_le_step _
                                                        (get_le-put_le 4 w.alt_saved_col _
                                                          h.alt_saved_col)
                                                        (get_le_step _
                                                          (get_le-put_le 2 w.alt_saved_fg _
                                                            h.alt_saved_fg)
                                                          (get_le_step _
                                                            (get_le-put_le 2 w.alt_saved_bg _
                                                            h.alt_saved_bg)
                                                            (get_le_step _
                                                            (get_le-put_le 1 w.alt_saved_attrs _
                                                            h.alt_saved_attrs)
                                                            (get_le_step _
                                                            (get_array-put_array 1 title_size
                                                            w.title _ h.title)
                                                            (refl)))))))))))))))))))))))))))))))
