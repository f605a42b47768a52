-- ===== src/Vt/Safety/Csi.antt =====
-- Every CSI sequence is safe, and keeps the parser well-formed.
use u.Common.{
  ℕ, zero, suc, ◌-◌, ◌≤◌, false, Option, ◌||◌, arith, Safe, safe, Safe-bind, Safe-mono, Safe-if,
  ltb, ◌==◌, if_either,
}
use u.Common.Buffer.{Buffer}
use u.Vt.Types.{Screen, VtParser}
use u.Vt.Csi.{on_screen, dispatch_public, dispatch_csi}
use u.Vt.Csi.Move.{
  param, is_cursor_final, csi_cht, tab_back, cbt_loop, csi_cbt, set_insert, csi_tbc, csi_status,
}
use u.Vt.Safety.{IsValid, ParserValid}
use u.Vt.Safety.Cursor.{
  csi_cursor-IsValid, set_region-IsValid, save_cursor-IsValid, restore_cursor-IsValid,
}
use u.Vt.Safety.Scroll.{scroll_up-Safe, scroll_down-Safe, Scrolled-IsValid}
use u.Vt.Safety.Control.{with_scr, handle_c0-Safe, tab_get-Safe, tab_clear-Safe, IsTabs}
use u.Vt.Safety.Sgr.{handle_sgr-Safe}
use u.Vt.Safety.Edit.{
  csi_ed-Safe, csi_el-Safe, csi_ech-Safe, csi_rep-Safe, csi_ich-Safe, csi_dch-Safe, csi_il-Safe,
  csi_dl-Safe,
}
use u.Vt.Safety.Private.{private_set-Safe, private_reset-Safe}

param_pos : (p : VtParser) (i : ℕ) → 1 ≤ param p i 1
unfolding param
param_pos p i = ground arith

pub on_screen-Safe :
    {p : VtParser} {m : Option Screen}
    → ParserValid p
    → Safe IsValid m
    → Safe ParserValid (on_screen p m)
on_screen-Safe v h = Safe-bind h λ s w. safe (with_scr s v w)

csi_cht-Safe : (n : ℕ) (p : VtParser) → ParserValid p → Safe ParserValid (csi_cht n p)
unfolding csi_cht
csi_cht-Safe zero p v = safe v
csi_cht-Safe (suc n) p v = Safe-bind (handle_c0-Safe p 0x09 v) λ q w. csi_cht-Safe n q w

tab_back-Safe : (t : Buffer ℕ) (c : ℕ) → IsTabs t → Safe (λ d. d ≤ c) (tab_back t c)
unfolding tab_back
tab_back-Safe t zero h = safe (omega arith)
tab_back-Safe t (suc c) h = Safe-bind (tab_get-Safe t (suc c) h) λ stop _.
    Safe-if stop (λ _. safe (omega arith)) (λ _. Safe-mono (tab_back-Safe t c h) λ d e. omega arith)

cbt_loop-Safe : (t : Buffer ℕ) (n c : ℕ) → IsTabs t → Safe (λ d. d ≤ c) (cbt_loop t n c)
unfolding cbt_loop
cbt_loop-Safe t zero c h = safe (omega arith)
cbt_loop-Safe t (suc n) c h =
    Safe-if (ltb 0 c)
      (λ _.
        Safe-bind (tab_back-Safe t (c - 1) h)
          λ d e. Safe-mono (cbt_loop-Safe t n d h) λ d' e'. omega arith)
      (λ _. safe (omega arith))

csi_cbt-Safe : (p : VtParser) (n : ℕ) → ParserValid p → Safe IsValid (csi_cbt p n)
unfolding csi_cbt
csi_cbt-Safe p n v =
    Safe-bind (cbt_loop-Safe p.tabstops n p.scr.cur_col v.tabs_size) λ c h. safe (narrow v.screen h)
  where
    narrow :
        {s : Screen} {c : ℕ}
        → IsValid s
        → c ≤ s.cur_col
        → IsValid (record s { cur_col = c; pending_wrap = false })
    narrow w h = ground arith

csi_tbc-Safe : (p : VtParser) → ParserValid p → Safe ParserValid (csi_tbc p)
unfolding csi_tbc
csi_tbc-Safe p v =
    Safe-if (param p 0 0 == 0)
      (λ _.
        Safe-bind (tab_clear-Safe p.tabstops p.scr.cur_col v.tabs_size) λ t h. safe (ground arith))
      (λ _. Safe-if (param p 0 0 == 3) (λ _. safe (ground arith)) (λ _. safe v))

set_insert-IsValid : (s : Screen) (m final : ℕ) → IsValid s → IsValid (set_insert s m final)
unfolding set_insert
set_insert-IsValid s m final v = if_either IsValid (m == 4) (ground arith) v

csi_status-ParserValid : (p : VtParser) → ParserValid p → ParserValid (csi_status p)
unfolding csi_status
csi_status-ParserValid p v = if_either ParserValid (param p 0 0 == 6) (ground arith) v

dispatch_public-Safe :
    (p : VtParser) (final : ℕ) → ParserValid p → Safe ParserValid (dispatch_public p final)
unfolding dispatch_public
dispatch_public-Safe p final v =
    let w = v.screen in
    let n = param p 0 1 in
    let k = param_pos p 0 in
    Safe-if (is_cursor_final final) (λ _. safe (with_scr _ v (csi_cursor-IsValid p final w)))
      λ _.
        Safe-if (final == b'I') (λ _. csi_cht-Safe n p v)
          λ _.
            Safe-if (final == b'Z') (λ _. on_screen-Safe v (csi_cbt-Safe p n v))
              λ _.
                Safe-if (final == b'J') (λ _. on_screen-Safe v (csi_ed-Safe p.scr _ w))
                  λ _.
                    Safe-if (final == b'K') (λ _. on_screen-Safe v (csi_el-Safe p.scr _ w))
                      λ _.
                        Safe-if (final == b'X') (λ _. on_screen-Safe v (csi_ech-Safe p.scr n w k))
                          λ _.
                            Safe-if (final == b'b') (λ _. csi_rep-Safe n p v)
                              λ _.
                                Safe-if (final == b'@')
                                  (λ _. on_screen-Safe v (csi_ich-Safe p.scr n w k))
                                  λ _.
                                    Safe-if (final == b'P')
                                      (λ _. on_screen-Safe v (csi_dch-Safe p.scr n w k))
                                      λ _.
                                        Safe-if (final == b'L')
                                          (λ _. on_screen-Safe v (csi_il-Safe p.scr n w))
                                          λ _.
                                            Safe-if (final == b'M')
                                              (λ _. on_screen-Safe v (csi_dl-Safe p.scr n w))
                                              λ _.
                                                Safe-if (final == b'S')
                                                  (λ _. on_screen-Safe v (
                                                    Safe-mono (scroll_up-Safe p.scr n w)
                                                      λ t o. Scrolled-IsValid w o))
                                                  λ _.
                                                    Safe-if (final == b'T')
                                                      (λ _. on_screen-Safe v (
                                                        Safe-mono (scroll_down-Safe p.scr n w)
                                                          λ t o. Scrolled-IsValid w o))
                                                      λ _.
                                                        Safe-if (final == b'm')
                                                          (λ _.
                                                            Safe-mono (handle_sgr-Safe p v)
                                                            (λ q r. r.0))
                                                          λ _.
                                                            Safe-if (final == b'h' || final == b'l')
                                                            (λ _. safe (
                                                            with_scr _ v
                                                            (set_insert-IsValid p.scr _ final w)))
                                                            λ _.
                                                            Safe-if (final == b'g')
                                                            (λ _. csi_tbc-Safe p v)
                                                            λ _.
                                                            Safe-if (final == b'r')
                                                            (λ _.
                                                            safe
                                                            (with_scr _ v (set_region-IsValid p w)))
                                                            λ _.
                                                            Safe-if (final == b's')
                                                            (λ _.
                                                            safe
                                                            (with_scr _ v (save_cursor-IsValid w)))
                                                            λ _.
                                                            Safe-if (final == b'u')
                                                            (λ _. safe (
                                                            with_scr _ v
                                                            (restore_cursor-IsValid w)))
                                                            λ _.
                                                            Safe-if (final == b'n')
                                                            (λ _. safe (csi_status-ParserValid p v))
                                                            (λ _. safe v)

pub dispatch_csi-Safe :
    (p : VtParser) (final : ℕ) → ParserValid p → Safe ParserValid (dispatch_csi p final)
unfolding dispatch_csi
dispatch_csi-Safe p final v =
    Safe-if p.priv
      (λ _.
        Safe-if (final == b'h')
          (λ _.
            on_screen-Safe v
              (private_set-Safe p.num_params p.params 0 p.scr v.screen (omega arith)))
          λ _.
            Safe-if (final == b'l')
              (λ _.
                on_screen-Safe v
                  (private_reset-Safe p.num_params p.params 0 p.scr v.screen (omega arith)))
              (λ _. safe v))
      (λ _. dispatch_public-Safe p final v)
