-- ===== src/Vt/Scrollback.antt =====
-- The scrollback (_lib/vt.c, scrollback_capture): rows that scroll off the screen, as UTF-8 text.
use u.Common.{
  ℕ, zero, suc, ◌+◌, ◌-◌, ◌/◌, Option, none, some, List, [], ◌∷◌, ◌++◌, not, ltb, leb, ◌==◌,
  if◌then◌else◌, check, length, take, ◌>>=◌, bit_and, bit_or,
}
use u.Vt.Types.{Cell, Grid, Screen, cell_wide_cont, cell_pad, row_wrapped, scrollback_bytes}
use u.Vt.Cells.{read_cell}

-- A codepoint as UTF-8: the branches of the encoder.
unfoldable pub utf8_encode : ℕ → List ℕ
utf8_encode cp =
    if ltb cp 0x80
    then cp ∷ []
    else if ltb cp 0x800
    then bit_or 0xC0 (cp / 64) ∷ bit_or 0x80 (bit_and cp 0x3F) ∷ []
    else if ltb cp 0x10000
    then bit_or 0xE0 (cp / 4096)
      ∷ bit_or 0x80 (bit_and (cp / 64) 0x3F)
      ∷ bit_or 0x80 (bit_and cp 0x3F)
      ∷ []
    else bit_or 0xF0 (cp / 262144)
      ∷ bit_or 0x80 (bit_and (cp / 4096) 0x3F)
      ∷ bit_or 0x80 (bit_and (cp / 64) 0x3F)
      ∷ bit_or 0x80 (bit_and cp 0x3F)
      ∷ []

-- `char tmp[4096]`
abbrev pub tmp_size : ℕ
tmp_size = 4096

-- `tmp` up to `tlen`, with `tlen`, and `last_nonspace` (0 stands for -1, as the code does in the end)
pub record Line : Type 0 where
  pub tmp : List ℕ
  pub tlen : ℕ
  pub last_nonspace : ℕ

-- Appending to `tmp` is a fault past its end.
unfoldable pub append_bytes : Line → List ℕ → Option Line
append_bytes l bs =
    check (leb (l.tlen + length bs) tmp_size)
      (record l { tmp = l.tmp ++ bs; tlen = l.tlen + length bs })

-- Every codepoint but a space moves `last_nonspace`.
unfoldable pub encode_cp : ℕ → Line → Option Line
encode_cp cp l = do
  l' ← append_bytes l (utf8_encode cp)
  some (if cp == 0x20 then l' else record l' { last_nonspace = l'.tlen })

-- Continuation cells and padding are skipped, and 0 is written as a space.
unfoldable pub encode_cell : Cell → Line → Option Line
encode_cell cell l =
    if not (bit_and cell.flags (bit_or cell_wide_cont cell_pad) == 0)
    then some l
    else encode_cp (if cell.ch == 0 then 0x20 else cell.ch) l

-- The loop over the columns from `c`, with the columns left.
unfoldable pub encode_row : Grid → ℕ → ℕ → ℕ → Line → Option Line
encode_row g r c zero l = some l
encode_row g r c (suc n) l =
    if ltb l.tlen (tmp_size - 4)
    then (do cell ← read_cell g r c; l' ← encode_cell cell l; encode_row g r (c + 1) n l')
    else some l

-- A wrapped row stays open and keeps its spaces; another is trimmed and ends in a newline.
unfoldable pub finish_line : Line → ℕ → Option Line
finish_line l rflags =
    if not (bit_and rflags row_wrapped == 0)
    then some l
    else append_bytes (record l { tmp = take l.last_nonspace l.tmp; tlen = l.last_nonspace })
        (0x0A ∷ [])

-- `memchr` for the newline, and what stands behind it
unfoldable pub after_newline : List ℕ → Option (List ℕ)
after_newline [] = none
after_newline (b ∷ bs) = if b == 0x0A then some bs else after_newline bs

-- The loop that makes room: the oldest line goes until `tlen` bytes fit. Each round drops at least
-- one byte, so `length sb` rounds are enough.
unfoldable pub evict : ℕ → List ℕ → ℕ → List ℕ
evict zero sb tlen = sb
evict (suc n) sb tlen =
    if ltb scrollback_bytes (length sb + tlen)
    then elim (after_newline sb) [ none ↦ [] | some rest ↦ evict n rest tlen ]
    else sb

abbrev pub no_line : Line
no_line = record { tmp = []; tlen = 0; last_nonspace = 0 }

-- Row `r` of `g`, with its flags, appended to the scrollback.
unfoldable pub capture_text : ℕ → Grid → ℕ → ℕ → List ℕ → Option (List ℕ)
capture_text cols g r rflags sb = do
  l ← encode_row g r 0 cols no_line
  l' ← finish_line l rflags
  check (leb (length (evict (length sb) sb l'.tlen) + l'.tlen) scrollback_bytes)
      (evict (length sb) sb l'.tlen ++ l'.tmp)

unfoldable pub scrollback_capture : Screen → Grid → ℕ → ℕ → Option Screen
scrollback_capture s g r rflags = elim s.scrollback [
  | none ↦ some s
  | some sb ↦ do sb' ← capture_text s.cols g r rflags sb; some (record s { scrollback = some sb' })
]
