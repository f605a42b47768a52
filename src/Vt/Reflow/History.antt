-- ===== src/Vt/Reflow/History.antt =====
-- The scrollback in a reflow (_lib/vt.c, reflow: the open line at its end, the lines that a taller
-- screen takes back, and their layout). `none` is an access outside an array, or a loop that has
-- used up its fuel.
pub mod Pulled
pub mod Placed
use u.Common.{
  ℕ, zero, suc, ◌+◌, ◌-◌, ◌*◌, Option, none, some, List, [], ◌∷◌, ◌==◌, ltb, if◌then◌else◌, length,
  ◌>>=◌,
}
use u.Common.Buffer.{Buffer, read}
use u.Vt.Types.{Cell}
use u.Vt.Wire.Rows.{get_or}
use u.Vt.Reflow.{decode_text, count_rows, lay_rows, Target}

-- `buf`, up to `scrollback_len`: a read of the bytes behind is a fault.
abbrev pub text_buffer : List ℕ → Buffer ℕ
text_buffer t = record { size = length t; at = λ i. get_or t i 0 }

-- `while (q > 0 && buf[q - 1] != '\n') q--`
unfoldable pub line_start : Buffer ℕ → ℕ → Option ℕ
line_start b zero = some 0
line_start b (suc q) = do c ← read b q; if c == b'\n' then some (suc q) else line_start b q

-- `while (e < cut && buf[e] != '\n') e++`, with the bytes left.
unfoldable pub line_stop : Buffer ℕ → ℕ → ℕ → Option ℕ
line_stop b e zero = some e
line_stop b e (suc left) = do c ← read b e; if c == b'\n' then some e else line_stop b (e + 1) left

-- The text of `n` bytes at `b[from]`.
unfoldable pub slice : Buffer ℕ → ℕ → ℕ → Option (List ℕ)
slice b from zero = some []
slice b from (suc n) = do c ← read b from; rest ← slice b (from + 1) n; some (c ∷ rest)

-- `tmp` after the cells were put there; behind them it is what it was.
abbrev pub with_cells : Buffer Cell → List Cell → Buffer Cell
with_cells tmp cells = record {
  size = tmp.size;
  at = λ i. if ltb i (length cells) then get_or cells i (tmp.at i) else tmp.at i;
}

-- `nr * nc + 2`
abbrev pub capacity : ℕ → ℕ → ℕ
capacity nr nc = nr * nc + 2

-- `if (n < 0) break`: what there is, or what follows for the cells.
abbrev pub or_stop : Option (List Cell) → ℕ × ℕ → (List Cell → Option (ℕ × ℕ)) → Option (ℕ × ℕ)
or_stop none so_far next = some so_far
or_stop (some cells) so_far next = next cells

-- The third step: `pull` and `hrows`, where `p` is `pull`. `screen_rows` is `S`, and `hrows + rows >
-- nr - S` is tested as a sum, since `avail` may be negative. Each round goes back a byte at least.
unfoldable pub pull_lines : ℕ → Buffer ℕ → Buffer Cell → ℕ → ℕ → ℕ → ℕ → ℕ → Option (ℕ × ℕ)
pull_lines fuel b tmp nr nc screen_rows zero hrows = some (0, hrows)
pull_lines zero b tmp nr nc screen_rows (suc p) hrows = none
pull_lines (suc fuel) b tmp nr nc screen_rows (suc p) hrows = do
  q ← line_start b p
  text ← slice b q (p - q)
  or_stop (decode_text text (capacity nr nc)) (suc p, hrows)
      λ cells. do
        rows ← count_rows (with_cells tmp cells) 0 (length cells) nc
        if ltb nr (hrows + rows + screen_rows)
            then some (suc p, hrows)
            else pull_lines fuel b tmp nr nc screen_rows q (hrows + rows)

-- `lay_line` of decoded cells. With `n` -1 its loop has no round, as with 0.
abbrev pub lay_decoded : Buffer Cell → Option (List Cell) → ℕ → Target → ℕ → Option (Target × ℕ)
lay_decoded tmp none nc t row = lay_rows tmp 0 0 nc t row
lay_decoded tmp (some cells) nc t row = lay_rows (with_cells tmp cells) 0 (length cells) nc t row

-- The pulled lines, from `p`, laid out from row `row`: what is laid out, and the next row.
unfoldable pub lay_history :
    ℕ → Buffer ℕ → Buffer Cell → ℕ → ℕ → ℕ → ℕ → Target → ℕ → Option (Target × ℕ)
lay_history zero b tmp nr nc cut p t row = if ltb p cut then none else some (t, row)
lay_history (suc fuel) b tmp nr nc cut p t row =
    if ltb p cut
    then (do
      e ← line_stop b p (cut - p)
      text ← slice b p (e - p)
      (t', rows) ← lay_decoded tmp (decode_text text (capacity nr nc)) nc t row
      lay_history fuel b tmp nr nc cut (e + 1) t' (row + rows))
    else some (t, row)
