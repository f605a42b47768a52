-- ===== src/Vt/Wire.antt =====
-- The wire format of a terminal (_lib/vt.c, vt_serialize and vt_deserialize). A file descriptor is
-- the list of the bytes that go through it; what is put goes before the bytes that follow. The
-- structs are packed and the numbers little-endian. A number that is read is taken as unsigned.
pub mod Numbers
mod Structs
mod Grids
pub mod Represent
mod Reread
pub mod Restored
pub mod RoundTrip
pub mod Rows
pub mod Serial
pub mod Transfer
use u.Common.{
  ℕ, zero, suc, ◌+◌, ◌-◌, ◌*◌, ◌/◌, ◌%◌, Bool, true, false, not, ◌&&◌, Option, none, some, List, [],
  ◌∷◌, ◌++◌, ◌==◌, leb, if◌then◌else◌, check, take, length, ◌>>=◌,
}
use u.Common.Buffer.{Buffer}
use u.Vt.Types.{
  Cell, Grid, Screen, VtParser, VtState, vt_max_params, vt_max_inter, vt_max_osc, tab_bytes,
}
use u.Vt.Cells.{alloc_cells, put_row}
use u.Vt.Init.{vt_init}

-- A number of `k` bytes.
unfoldable pub put_le : ℕ → ℕ → List ℕ → List ℕ
put_le zero v rest = rest
put_le (suc k) v rest = (v % 256) ∷ put_le k (v / 256) rest

unfoldable pub get_le : ℕ → List ℕ → Option (ℕ × List ℕ)
get_le zero bytes = some (0, bytes)
get_le (suc k) [] = none
get_le (suc k) (b ∷ bytes) = do (v, rest) ← get_le k bytes; some (b + 256 * v, rest)

-- `b ? 1 : 0`
abbrev pub from_bool : Bool → ℕ
from_bool b = if b then 1 else 0

-- A byte that is read into a `bool`.
abbrev pub to_bool : ℕ → Bool
to_bool v = not (v == 0)

-- Numbers of `k` bytes each.
unfoldable pub put_array : ℕ → List ℕ → List ℕ → List ℕ
put_array k [] rest = rest
put_array k (v ∷ vs) rest = put_le k v (put_array k vs rest)

unfoldable pub get_array : ℕ → ℕ → List ℕ → Option (List ℕ × List ℕ)
get_array k zero bytes = some ([], bytes)
get_array k (suc n) bytes = do
  (v, rest) ← get_le k bytes
  (vs, rest') ← get_array k n rest
  some (v ∷ vs, rest')

unfoldable pub state_number : VtState → ℕ
state_number VtState.ground_state = 0
state_number VtState.esc_state = 1
state_number VtState.esc_inter_state = 2
state_number VtState.csi_param = 3
state_number VtState.csi_inter = 4
state_number VtState.osc_state = 5
state_number VtState.dcs_state = 6

-- The cast to the enumeration. A number that is no state has no value here.
unfoldable pub to_vt_state : ℕ → Option VtState
to_vt_state v =
    if v == 0
    then some VtState.ground_state
    else if v == 1
    then some VtState.esc_state
    else if v == 2
    then some VtState.esc_inter_state
    else if v == 3
    then some VtState.csi_param
    else if v == 4
    then some VtState.csi_inter
    else if v == 5
    then some VtState.osc_state
    else if v == 6
    then some VtState.dcs_state
    else none

pub record VtWire : Type 0 where
  pub state : ℕ
  pub params : List ℕ
  pub num_params : ℕ
  pub inter : List ℕ
  pub num_inter : ℕ
  pub priv : ℕ
  pub osc_len : ℕ
  pub utf8_buf : List ℕ
  pub utf8_len : ℕ
  pub utf8_want : ℕ
  pub tabstops : List ℕ
  pub cpr_requested : ℕ
  pub g0_dec : ℕ
  pub esc_inter : ℕ

pub record ScreenWire : Type 0 where
  pub rows : ℕ
  pub cols : ℕ
  pub cur_row : ℕ
  pub cur_col : ℕ
  pub cur_visible : ℕ
  pub pending_wrap : ℕ
  pub origin_mode : ℕ
  pub auto_wrap : ℕ
  pub app_cursor : ℕ
  pub bracketed_paste : ℕ
  pub insert_mode : ℕ
  pub in_alt_screen : ℕ
  pub mouse_mode : ℕ
  pub mouse_enc : ℕ
  pub scroll_top : ℕ
  pub scroll_bottom : ℕ
  pub cur_fg : ℕ
  pub cur_bg : ℕ
  pub cur_attrs : ℕ
  pub saved_row : ℕ
  pub saved_col : ℕ
  pub saved_fg : ℕ
  pub saved_bg : ℕ
  pub saved_attrs : ℕ
  pub saved_wrap : ℕ
  pub alt_saved_row : ℕ
  pub alt_saved_col : ℕ
  pub alt_saved_fg : ℕ
  pub alt_saved_bg : ℕ
  pub alt_saved_attrs : ℕ
  pub title : List ℕ

-- `VTWire`, field by field.
unfoldable pub put_vt_wire : VtWire → List ℕ → List ℕ
put_vt_wire w rest = put_le 4 w.state (
    put_array 4 w.params (
      put_le 4 w.num_params (
        put_array 1 w.inter (
          put_le 4 w.num_inter (
            put_le 1 w.priv (
              put_le 4 w.osc_len (
                put_array 1 w.utf8_buf (
                  put_le 4 w.utf8_len (
                    put_le 4 w.utf8_want (
                      put_array 1 w.tabstops (
                        put_le 1 w.cpr_requested
                          (put_le 1 w.g0_dec (put_le 1 w.esc_inter rest)))))))))))))

unfoldable pub get_vt_wire : List ℕ → Option (VtWire × List ℕ)
get_vt_wire r0 = do
  (state', r1) ← get_le 4 r0
  (params', r2) ← get_array 4 vt_max_params r1
  (num_params', r3) ← get_le 4 r2
  (inter', r4) ← get_array 1 vt_max_inter r3
  (num_inter', r5) ← get_le 4 r4
  (priv', r6) ← get_le 1 r5
  (osc_len', r7) ← get_le 4 r6
  (utf8_buf', r8) ← get_array 1 4 r7
  (utf8_len', r9) ← get_le 4 r8
  (utf8_want', r10) ← get_le 4 r9
  (tabstops', r11) ← get_array 1 tab_bytes r10
  (cpr_requested', r12) ← get_le 1 r11
  (g0_dec', r13) ← get_le 1 r12
  (esc_inter', r14) ← get_le 1 r13
  some (
    record {
      state = state';
      params = params';
      num_params = num_params';
      inter = inter';
      num_inter = num_inter';
      priv = priv';
      osc_len = osc_len';
      utf8_buf = utf8_buf';
      utf8_len = utf8_len';
      utf8_want = utf8_want';
      tabstops = tabstops';
      cpr_requested = cpr_requested';
      g0_dec = g0_dec';
      esc_inter = esc_inter';
    },
    r14,
  )

abbrev pub title_size : ℕ
title_size = 256

-- `ScreenWire`, field by field.
unfoldable pub put_screen_wire : ScreenWire → List ℕ → List ℕ
put_screen_wire w rest = put_le 4 w.rows (
    put_le 4 w.cols (
      put_le 4 w.cur_row (
        put_le 4 w.cur_col (
          put_le 1 w.cur_visible (
            put_le 1 w.pending_wrap (
              put_le 1 w.origin_mode (
                put_le 1 w.auto_wrap (
                  put_le 1 w.app_cursor (
                    put_le 1 w.bracketed_paste (
                      put_le 1 w.insert_mode (
                        put_le 1 w.in_alt_screen (
                          put_le 1 w.mouse_mode (
                            put_le 1 w.mouse_enc (
                              put_le 4 w.scroll_top (
                                put_le 4 w.scroll_bottom (
                                  put_le 2 w.cur_fg (
                                    put_le 2 w.cur_bg (
                                      put_le 1 w.cur_attrs (
                                        put_le 4 w.saved_row (
                                          put_le 4 w.saved_col (
                                            put_le 2 w.saved_fg (
                                              put_le 2 w.saved_bg (
                                                put_le 1 w.saved_attrs (
                                                  put_le 1 w.saved_wrap (
                                                    put_le 4 w.alt_saved_row (
                                                      put_le 4 w.alt_saved_col (
                                                        put_le 2 w.alt_saved_fg (
                                                          put_le 2 w.alt_saved_bg (
                                                            put_le 1 w.alt_saved_attrs (
                                                            put_array 1 w.title
                                                            rest))))))))))))))))))))))))))))))

unfoldable pub get_screen_wire : List ℕ → Option (ScreenWire × List ℕ)
get_screen_wire r0 = do
  (rows', r1) ← get_le 4 r0
  (cols', r2) ← get_le 4 r1
  (cur_row', r3) ← get_le 4 r2
  (cur_col', r4) ← get_le 4 r3
  (cur_visible', r5) ← get_le 1 r4
  (pending_wrap', r6) ← get_le 1 r5
  (origin_mode', r7) ← get_le 1 r6
  (auto_wrap', r8) ← get_le 1 r7
  (app_cursor', r9) ← get_le 1 r8
  (bracketed_paste', r10) ← get_le 1 r9
  (insert_mode', r11) ← get_le 1 r10
  (in_alt_screen', r12) ← get_le 1 r11
  (mouse_mode', r13) ← get_le 1 r12
  (mouse_enc', r14) ← get_le 1 r13
  (scroll_top', r15) ← get_le 4 r14
  (scroll_bottom', r16) ← get_le 4 r15
  (cur_fg', r17) ← get_le 2 r16
  (cur_bg', r18) ← get_le 2 r17
  (cur_attrs', r19) ← get_le 1 r18
  (saved_row', r20) ← get_le 4 r19
  (saved_col', r21) ← get_le 4 r20
  (saved_fg', r22) ← get_le 2 r21
  (saved_bg', r23) ← get_le 2 r22
  (saved_attrs', r24) ← get_le 1 r23
  (saved_wrap', r25) ← get_le 1 r24
  (alt_saved_row', r26) ← get_le 4 r25
  (alt_saved_col', r27) ← get_le 4 r26
  (alt_saved_fg', r28) ← get_le 2 r27
  (alt_saved_bg', r29) ← get_le 2 r28
  (alt_saved_attrs', r30) ← get_le 1 r29
  (title', r31) ← get_array 1 title_size r30
  some (
    record {
      rows = rows';
      cols = cols';
      cur_row = cur_row';
      cur_col = cur_col';
      cur_visible = cur_visible';
      pending_wrap = pending_wrap';
      origin_mode = origin_mode';
      auto_wrap = auto_wrap';
      app_cursor = app_cursor';
      bracketed_paste = bracketed_paste';
      insert_mode = insert_mode';
      in_alt_screen = in_alt_screen';
      mouse_mode = mouse_mode';
      mouse_enc = mouse_enc';
      scroll_top = scroll_top';
      scroll_bottom = scroll_bottom';
      cur_fg = cur_fg';
      cur_bg = cur_bg';
      cur_attrs = cur_attrs';
      saved_row = saved_row';
      saved_col = saved_col';
      saved_fg = saved_fg';
      saved_bg = saved_bg';
      saved_attrs = saved_attrs';
      saved_wrap = saved_wrap';
      alt_saved_row = alt_saved_row';
      alt_saved_col = alt_saved_col';
      alt_saved_fg = alt_saved_fg';
      alt_saved_bg = alt_saved_bg';
      alt_saved_attrs = alt_saved_attrs';
      title = title';
    },
    r31,
  )
