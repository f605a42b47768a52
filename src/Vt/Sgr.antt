-- ===== src/Vt/Sgr.antt =====
-- SGR, the rendition (_lib/vt.c, handle_sgr).
use u.Common.{
  ℕ, zero, suc, ◌+◌, ◌-◌, ◌%◌, Option, none, some, ◌&&◌, ltb, leb, ◌==◌, if◌then◌else◌, ◌>>=◌,
  bit_and, bit_or,
}
use mathlib.Core.Option
use u.Common.Buffer.{Buffer, read}
use u.Vt.Types.{Screen, VtParser, color_default}

abbrev pub reset_rendition : Screen → Screen
reset_rendition s = record s { cur_fg = color_default; cur_bg = color_default; cur_attrs = 0 }

abbrev pub set_attrs : Screen → ℕ → Screen
set_attrs s m = record s { cur_attrs = bit_or s.cur_attrs m }

-- `s->cur_attrs &= ~m`
abbrev pub drop_attrs : Screen → ℕ → Screen
drop_attrs s m = record s { cur_attrs = bit_and s.cur_attrs (255 - m) }

-- The parameters that set, drop or reset attributes and default colours.
unfoldable pub sgr_attr : Screen → ℕ → Option Screen
sgr_attr s v =
    if v == 0
    then some (reset_rendition s)
    else if v == 1
    then some (set_attrs s 0x01)
    else if v == 2
    then some (set_attrs s 0x02)
    else if v == 3
    then some (set_attrs s 0x04)
    else if v == 4
    then some (set_attrs s 0x08)
    else if v == 5
    then some (set_attrs s 0x10)
    else if v == 7
    then some (set_attrs s 0x20)
    else if v == 8
    then some (set_attrs s 0x40)
    else if v == 9
    then some (set_attrs s 0x80)
    else if v == 22
    then some (drop_attrs s 0x03)
    else if v == 23
    then some (drop_attrs s 0x04)
    else if v == 24
    then some (drop_attrs s 0x08)
    else if v == 25
    then some (drop_attrs s 0x10)
    else if v == 27
    then some (drop_attrs s 0x20)
    else if v == 28
    then some (drop_attrs s 0x40)
    else if v == 29
    then some (drop_attrs s 0x80)
    else if v == 39
    then some (record s { cur_fg = color_default })
    else if v == 49
    then some (record s { cur_bg = color_default })
    else none

-- The 8 colours and the 8 bright ones, as foreground or background; any other number is ignored.
unfoldable pub sgr_colour : Screen → ℕ → Screen
sgr_colour s v =
    if leb 30 v && leb v 37
    then record s { cur_fg = v - 30 }
    else if leb 40 v && leb v 47
    then record s { cur_bg = v - 40 }
    else if leb 90 v && leb v 97
    then record s { cur_fg = v - 90 + 8 }
    else if leb 100 v && leb v 107
    then record s { cur_bg = v - 100 + 8 }
    else s

unfoldable pub sgr_plain : Screen → ℕ → Screen
sgr_plain s v = Option.get_or (sgr_attr s v) (sgr_colour s v)

-- `38;5;n` and `48;5;n`: the 256-colour form takes two more parameters and sets the colour, the
-- truecolour form takes four and is ignored. The result is the colour and the parameters skipped.
unfoldable pub sgr_extended : Buffer ℕ → ℕ → ℕ → ℕ → Option (ℕ × ℕ)
sgr_extended params n i old =
    if ltb (i + 2) n
    then (do
      mode ← read params (i + 1)
      if mode == 5
          then (do v ← read params (i + 2); some (v % 65536, 2))
          else if ltb (i + 4) n && mode == 2
          then some (old, 4)
          else some (old, 0))
    else some (old, 0)

-- One round of the loop: the screen, and the index of the next parameter.
unfoldable pub sgr_step : Buffer ℕ → ℕ → ℕ → Screen → Option (Screen × ℕ)
sgr_step params n i s = do
  v ← read params i
  if v == 38
      then (do
        (fg, k) ← sgr_extended params n i s.cur_fg
        some (record s { cur_fg = fg }, i + k + 1))
      else if v == 48
      then (do
        (bg, k) ← sgr_extended params n i s.cur_bg
        some (record s { cur_bg = bg }, i + k + 1))
      else some (sgr_plain s v, i + 1)

-- Every round moves on by a parameter at least, so `num_params` rounds are enough.
unfoldable pub sgr_loop : ℕ → Buffer ℕ → ℕ → ℕ → Screen → Option Screen
sgr_loop zero params n i s = some s
sgr_loop (suc fuel) params n i s =
    if ltb i n then (do (s', i') ← sgr_step params n i s; sgr_loop fuel params n i' s') else some s

unfoldable pub handle_sgr : VtParser → Option VtParser
handle_sgr p =
    if p.num_params == 0
    then some (record p { scr = reset_rendition p.scr })
    else (do s ← sgr_loop p.num_params p.params p.num_params 0 p.scr; some (record p { scr = s }))
