-- ===== src/Vt/Escape.antt =====
-- Escape sequences and operating system commands (_lib/vt.c, dispatch_esc and dispatch_osc).
use u.Common.{
  ℕ, zero, suc, ◌+◌, ◌-◌, ◌*◌, true, false, Option, none, some, List, [], ◌∷◌, ◌&&◌, ◌||◌, ltb, leb,
  ◌==◌, if◌then◌else◌, take, ◌>>=◌,
}
use u.Common.Buffer.{Buffer, read, write}
use u.Vt.Types.{Screen, VtParser, vt_max_osc}
use u.Vt.Tabs.{tab_set, tabs_reset}
use u.Vt.Scroll.{do_lf, do_ri}
use u.Vt.Csi.{on_screen}
use u.Vt.Csi.Move.{save_cursor, restore_cursor}
use u.Vt.Init.{scr_init}

-- `c`, RIS. The screen keeps its size.
unfoldable pub reset_terminal : VtParser → Option VtParser
reset_terminal p = do
  t ← tabs_reset p.tabstops p.scr.cols
  some (record p { g0_dec = false; scr = scr_init p.scr.rows p.scr.cols true; tabstops = t })

unfoldable pub dispatch_esc : VtParser → ℕ → Option VtParser
dispatch_esc p final =
    let s = p.scr in
    if final == b'7'
    then some (record p { scr = save_cursor s })
    else if final == b'8'
    then some (record p { scr = restore_cursor s })
    else if final == b'D'
    then on_screen p (do_lf s)
    else if final == b'E'
    then on_screen p (do_lf (record s { cur_col = 0 }))
    else if final == b'H'
    then (do t ← tab_set p.tabstops s.cur_col; some (record p { tabstops = t }))
    else if final == b'M'
    then on_screen p (do_ri s)
    else if final == b'c'
    then reset_terminal p
    else some p

-- The bytes of the C string that starts at `i`, within the next `n` bytes.
unfoldable pub c_string : ℕ → Buffer ℕ → ℕ → Option (List ℕ)
c_string zero b i = none
c_string (suc n) b i = do
  c ← read b i
  if c == 0 then some [] else (do cs ← c_string n b (i + 1); some (c ∷ cs))

-- `strchr(str, ';')`, and what stands behind it
unfoldable pub after_semicolon : List ℕ → Option (List ℕ)
after_semicolon [] = none
after_semicolon (c ∷ cs) = if c == b';' then some cs else after_semicolon cs

-- `atoi`: white space, a sign and digits; `none` for a negative number
unfoldable pub digits_value : ℕ → List ℕ → ℕ
digits_value acc [] = acc
digits_value acc (c ∷ cs) =
    if leb b'0' c && leb c b'9' then digits_value (acc * 10 + (c - b'0')) cs else acc

unfoldable pub skip_space : List ℕ → List ℕ
skip_space [] = []
skip_space (c ∷ cs) = if c == 0x20 || (leb 0x09 c && leb c 0x0D) then skip_space cs else c ∷ cs

unfoldable pub signed_value : List ℕ → Option ℕ
signed_value [] = some 0
signed_value (c ∷ cs) =
    if c == b'-'
    then if digits_value 0 cs == 0 then some 0 else none
    else if c == b'+'
    then some (digits_value 0 cs)
    else some (digits_value 0 (c ∷ cs))

unfoldable pub atoi : List ℕ → Option ℕ
atoi cs = signed_value (skip_space cs)

-- Commands 0, 1 and 2 have a title, behind the first semicolon; `none` here is no fault.
unfoldable pub title_of : List ℕ → Option (List ℕ)
title_of text = do
  title ← after_semicolon text
  cmd ← atoi text
  if leb cmd 2 then some title else none

-- `snprintf` cuts the title to 255 bytes.
unfoldable pub set_title : Screen → Option (List ℕ) → Screen
set_title s none = s
set_title s (some title) = record s { title = take 255 title }

unfoldable pub dispatch_osc : VtParser → Option VtParser
dispatch_osc p = do
  osc ← write p.osc (if ltb p.osc_len (vt_max_osc - 1) then p.osc_len else vt_max_osc - 1) 0
  text ← c_string vt_max_osc osc 0
  some (record p { osc = osc; scr = set_title p.scr (title_of text) })
