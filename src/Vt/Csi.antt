-- ===== src/Vt/Csi.antt =====
-- CSI sequences (_lib/vt.c, dispatch_csi): one definition for each group of cases of its switch.
pub mod Edit
pub mod Move
pub mod Private
pub mod AltScreen
use u.Common.{ℕ, Option, some, ◌||◌, ◌==◌, if◌then◌else◌, ◌>>=◌}
use u.Vt.Types.{Screen, VtParser}
use u.Vt.Scroll.{scroll_up, scroll_down}
use u.Vt.Sgr.{handle_sgr}
use Edit.{csi_ed, csi_el, csi_ech, csi_rep, csi_ich, csi_dch, csi_il, csi_dl}
use Move.{
  param, is_cursor_final, csi_cursor, csi_cht, csi_cbt, set_insert, csi_tbc, set_region,
  save_cursor, restore_cursor, csi_status,
}
use Private.{private_set, private_reset}

abbrev pub on_screen : VtParser → Option Screen → Option VtParser
on_screen p m = do s ← m; some (record p { scr = s })

-- The switch of a sequence without `?`.
unfoldable pub dispatch_public : VtParser → ℕ → Option VtParser
dispatch_public p final =
    let s = p.scr in
    let n = param p 0 1 in
    if is_cursor_final final
    then some (record p { scr = csi_cursor p final })
    else if final == b'I'
    then csi_cht n p
    else if final == b'Z'
    then on_screen p (csi_cbt p n)
    else if final == b'J'
    then on_screen p (csi_ed s (param p 0 0))
    else if final == b'K'
    then on_screen p (csi_el s (param p 0 0))
    else if final == b'X'
    then on_screen p (csi_ech s n)
    else if final == b'b'
    then csi_rep n p
    else if final == b'@'
    then on_screen p (csi_ich s n)
    else if final == b'P'
    then on_screen p (csi_dch s n)
    else if final == b'L'
    then on_screen p (csi_il s n)
    else if final == b'M'
    then on_screen p (csi_dl s n)
    else if final == b'S'
    then on_screen p (scroll_up s n)
    else if final == b'T'
    then on_screen p (scroll_down s n)
    else if final == b'm'
    then handle_sgr p
    else if final == b'h' || final == b'l'
    then some (record p { scr = set_insert s (param p 0 0) final })
    else if final == b'g'
    then csi_tbc p
    else if final == b'r'
    then some (record p { scr = set_region p })
    else if final == b's'
    then some (record p { scr = save_cursor s })
    else if final == b'u'
    then some (record p { scr = restore_cursor s })
    else if final == b'n'
    then some (csi_status p)
    else some p

unfoldable pub dispatch_csi : VtParser → ℕ → Option VtParser
dispatch_csi p final =
    if p.priv
    then if final == b'h'
      then on_screen p (private_set p.num_params p.params 0 p.scr)
      else if final == b'l'
      then on_screen p (private_reset p.num_params p.params 0 p.scr)
      else some p
    else dispatch_public p final
