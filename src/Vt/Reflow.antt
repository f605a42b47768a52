-- ===== src/Vt/Reflow.antt =====
-- The pieces of a reflow (_lib/vt.c: row_wraps, cell_blank, decode_text, lay_line). `none` is an
-- access outside an array.

pub mod Layout
pub mod Gather
pub mod Decode
pub mod History
pub mod Lines
pub mod Commit
mod Tests
use u.Common.{
  ℕ, zero, suc, ◌+◌, ◌-◌, ◌*◌, Bool, not, ◌&&◌, ◌||◌, Option, none, some, List, [], ◌∷◌, ◌++◌, ◌==◌,
  ltb, if◌then◌else◌, length, ◌>>=◌, bit_and, bit_or,
}
use u.Common.Buffer.{Buffer, read, write}
use u.Vt.Types.{
  Cell, Grid, Screen, row_wrapped, cell_wide, cell_wide_cont, cell_fg_dfl, cell_bg_dfl, cell_pad,
}
use u.Vt.Cells.{read_cell, write_cell}
use u.Vt.Scroll.{flag_of}
use u.Vt.Width.{cp_width}

-- `flags & mask`
abbrev pub has : ℕ → ℕ → Bool
has flags mask = not (bit_and flags mask == 0)

unfoldable pub row_wraps : Screen → ℕ → Option Bool
row_wraps s r = do f ← flag_of s.row_flags r; some (has f row_wrapped)

-- `ATTR_UNDERLINE | ATTR_STRIKE | ATTR_REVERSE`
abbrev pub visible_blank_attrs : ℕ
visible_blank_attrs = 0xA8

unfoldable pub cell_blank : Cell → Bool
cell_blank c =
    not (has c.flags cell_wide_cont)
    && (c.ch == 0 || c.ch == b' ')
    && has c.flags cell_bg_dfl
    && not (has c.attrs visible_blank_attrs)

-- The lead byte of a character: the bits of it that count, and the bytes it takes.
unfoldable pub lead_byte : ℕ → ℕ × ℕ
lead_byte b0 =
    if ltb b0 0x80
    then (b0, 1)
    else if ltb b0 0xE0
    then (bit_and b0 0x1F, 2)
    else if ltb b0 0xF0
    then (bit_and b0 0x0F, 3)
    else (bit_and b0 0x07, 4)

-- `n` continuation bytes, or as many as there are, joined to `cp`, with what follows.
unfoldable pub join_bytes : ℕ → ℕ → List ℕ → ℕ × List ℕ
join_bytes zero cp bytes = (cp, bytes)
join_bytes (suc n) cp [] = (cp, [])
join_bytes (suc n) cp (b ∷ bytes) = join_bytes n (bit_or (cp * 64) (bit_and b 0x3F)) bytes

-- The cells of a character that takes `w` columns, one or two.
unfoldable pub char_cells : ℕ → ℕ → List Cell
char_cells cp w =
    let dfl = bit_or cell_fg_dfl cell_bg_dfl in
    let blank : Cell = record { ch = 0; fg = 0; bg = 0; attrs = 0; flags = dfl } in
    if w == 2
    then record blank { ch = cp; flags = bit_or dfl cell_wide }
      ∷ record blank { flags = bit_or dfl cell_wide_cont }
      ∷ []
    else record blank { ch = cp } ∷ []

-- `decode_text`: the cells of a text after those in `out`, where none is the return of -1, for more
-- cells than `cap`. Each round takes a byte at least, so the number of bytes is fuel enough.
unfoldable pub decode_loop : ℕ → ℕ → List Cell → List ℕ → Option (List Cell)
decode_loop fuel cap out [] = some out
decode_loop zero cap out (b0 ∷ bytes) = none
decode_loop (suc fuel) cap out (b0 ∷ bytes) =
    let lead = lead_byte b0 in
    let joined = join_bytes (lead.1 - 1) lead.0 bytes in
    let w = cp_width joined.0 in
    let skipped = decode_loop fuel cap out joined.1 in
    let taken = decode_loop fuel cap (out ++ char_cells joined.0 w) joined.1 in
    if w == 0 then skipped else (if ltb cap (length out + w) then none else taken)

unfoldable pub decode_text : List ℕ → ℕ → Option (List Cell)
decode_text bytes cap = decode_loop (length bytes) cap [] bytes

-- The columns that a cell of a line takes.
unfoldable pub cell_width : Cell → ℕ
cell_width c = if has c.flags cell_wide then 2 else 1

-- `lay_line` with `tg == NULL`: the rows that the cells `start`, …, `start + n - 1` of `ln` take at
-- `nc` columns. Each round takes a cell at least: `n` rounds are enough.
unfoldable pub lay_count : ℕ → Buffer Cell → ℕ → ℕ → ℕ → ℕ → ℕ → ℕ → Option ℕ
lay_count zero ln start n nc i r c = if ltb i n then none else some (r + 1)
lay_count (suc fuel) ln start n nc i r c =
    if ltb i n
    then (do
      x ← read ln (start + i)
      let w = cell_width x
      let wraps = ltb nc (c + w)
      lay_count fuel ln start n nc (i + w) (if wraps then r + 1 else r)
          ((if wraps then 0 else c) + w))
    else some (r + 1)

unfoldable pub count_rows : Buffer Cell → ℕ → ℕ → ℕ → Option ℕ
count_rows ln start n nc = lay_count n ln start n nc 0 0 0

-- `tg[r][k].flags |= CELL_PAD`, from column `c`, with the rounds left.
unfoldable pub pad_cells : Grid → ℕ → ℕ → ℕ → Option Grid
pad_cells tg r c zero = some tg
pad_cells tg r c (suc rounds) = do
  x ← read_cell tg r c
  tg' ← write_cell tg r c (record x { flags = bit_or x.flags cell_pad })
  pad_cells tg' r (c + 1) rounds

-- `tg[r][c + k] = ln[from + k]`, with the rounds left.
unfoldable pub copy_cells : Buffer Cell → ℕ → Grid → ℕ → ℕ → ℕ → Option Grid
copy_cells ln from tg r c zero = some tg
copy_cells ln from tg r c (suc rounds) = do
  x ← read ln from
  tg' ← write_cell tg r c x
  copy_cells ln (from + 1) tg' r (c + 1) rounds

-- The rows that are laid out, `tg`, and their flags, `tf`.
pub record Target : Type 0 where
  pub tg : Grid
  pub tf : Buffer ℕ

-- The row goes on into the next one, and the columns from `c` on are padding.
unfoldable pub wrap_row : Target → ℕ → ℕ → ℕ → Option Target
wrap_row t r c nc = do
  f ← read t.tf r
  tf' ← write t.tf r (bit_or f row_wrapped)
  tg' ← pad_cells t.tg r c (nc - c)
  some (record { tg = tg'; tf = tf' })

-- `lay_line` with a target: what is laid out, and the rows that it takes.
unfoldable pub lay_fill : ℕ → Buffer Cell → ℕ → ℕ → ℕ → Target → ℕ → ℕ → ℕ → ℕ → Option (Target × ℕ)
lay_fill zero ln start n nc t row i r c = if ltb i n then none else some (t, r + 1)
lay_fill (suc fuel) ln start n nc t row i r c =
    if ltb i n
    then (do
      x ← read ln (start + i)
      let w = cell_width x
      let wraps = ltb nc (c + w)
      t' ← if wraps then wrap_row t (row + r) c nc else some t
      let r' = if wraps then r + 1 else r
      let c' = if wraps then 0 else c
      g ← copy_cells ln (start + i) t'.tg (row + r') c' w
      lay_fill fuel ln start n nc (record t' { tg = g }) row (i + w) r' (c' + w))
    else some (t, r + 1)

unfoldable pub lay_rows : Buffer Cell → ℕ → ℕ → ℕ → Target → ℕ → Option (Target × ℕ)
lay_rows ln start n nc t row = lay_fill n ln start n nc t row 0 0 0
