-- ===== src/Tac.antt =====
-- The lines of the input in the opposite order (tac/tac.c, main, on the input in memory). Growing
-- the arena succeeds, and so do the writes. `none` is an access outside the input or outside the
-- array of lines.
mod Bytes
mod Lines
mod Tests
use u.Common.{
  ℕ, zero, suc, ◌+◌, ◌-◌, Option, none, some, List, [], ◌∷◌, ◌++◌, ◌==◌, ltb, if◌then◌else◌, ◌>>=◌,
}
use u.Common.Buffer.{Buffer, read, write}

pub record LineSpan : Type 0 where
  pub off : ℕ
  pub len : ℕ

-- The first loop, from byte `i` with the bytes left: the number of newlines, and the start of the
-- line behind the last one.
unfoldable pub count_loop : Buffer ℕ → ℕ → ℕ → ℕ → ℕ → Option (ℕ × ℕ)
count_loop a i zero nlines start = some (nlines, start)
count_loop a i (suc left) nlines start = do
  c ← read a i
  count_loop a (i + 1) left (if c == b'\n' then nlines + 1 else nlines)
      (if c == b'\n' then i + 1 else start)

-- The number of lines.
unfoldable pub line_count : Buffer ℕ → ℕ → Option ℕ
line_count a used = do
  (nlines, start) ← count_loop a 0 used 0 0
  some (if ltb start used then nlines + 1 else nlines)

-- The second loop, and the line behind the last newline: the array of lines, and how many there are
-- in it.
unfoldable pub find_lines :
    Buffer ℕ → ℕ → ℕ → Buffer LineSpan → ℕ → ℕ → Option (Buffer LineSpan × ℕ)
find_lines a i zero lines nlines start =
    if ltb start i
    then (do
      lines' ← write lines nlines (record { off = start; len = i - start })
      some (lines', nlines + 1))
    else some (lines, nlines)
find_lines a i (suc left) lines nlines start = do
  c ← read a i
  lines' ←
      (if c == b'\n'
        then write lines nlines (record { off = start; len = i + 1 - start })
        else some lines)
  find_lines a (i + 1) left lines' (if c == b'\n' then nlines + 1 else nlines)
      (if c == b'\n' then i + 1 else start)

-- The bytes that are written of a line.
unfoldable pub line_bytes : Buffer ℕ → ℕ → ℕ → Option (List ℕ)
line_bytes a off zero = some []
line_bytes a off (suc len) = do c ← read a off; rest ← line_bytes a (off + 1) len; some (c ∷ rest)

-- The last loop.
unfoldable pub write_back : Buffer ℕ → Buffer LineSpan → ℕ → Option (List ℕ)
write_back a lines zero = some []
write_back a lines (suc n) = do
  l ← read lines n
  bytes ← line_bytes a l.off l.len
  rest ← write_back a lines n
  some (bytes ++ rest)

-- What is written of an input of `used` bytes; `junk` is what is in the arena behind it.
unfoldable pub tac : (ℕ → LineSpan) → Buffer ℕ → ℕ → Option (List ℕ)
tac junk a used = do
  required ← line_count a used
  (lines, nlines) ← find_lines a 0 used (record { size = required; at = junk }) 0 0
  write_back a lines nlines
