-- ===== src/Rev.antt =====
-- The reversal of lines in rev/rev.c, in the array of the input. An access outside the array, or a
-- loop that has used up its fuel, is `none`.
mod Flip
mod Lines
mod Tests
use u.Common.{ℕ, zero, suc, ◌+◌, ◌-◌, Option, none, some, ◌==◌, ltb, if◌then◌else◌, ◌>>=◌}
use u.Common.Buffer.{Buffer, read, write}

-- `while (end < used && p[end] != '\n') end++`, with the bytes left.
unfoldable pub line_end : ℕ → Buffer ℕ → ℕ → Option ℕ
line_end zero p end = some end
line_end (suc left) p end = do
  c ← read p end
  if c == b'\n' then some end else line_end left p (end + 1)

-- The bytes from `left` to before `right` are reversed.
unfoldable pub reverse : ℕ → Buffer ℕ → ℕ → ℕ → Option (Buffer ℕ)
reverse zero p left right = if ltb left right then none else some p
reverse (suc fuel) p left right =
    if ltb left right
    then (do
      c ← read p left
      d ← read p (right - 1)
      p1 ← write p left d
      p2 ← write p1 (right - 1) c
      reverse fuel p2 (left + 1) (right - 1))
    else some p

-- The loop over the lines, from `start`.
unfoldable pub reverse_lines : ℕ → Buffer ℕ → ℕ → ℕ → Option (Buffer ℕ)
reverse_lines zero p used start = if ltb start used then none else some p
reverse_lines (suc fuel) p used start =
    if ltb start used
    then (do
      end ← line_end (used - start) p start
      p' ← reverse (end - start) p start end
      reverse_lines fuel p' used (if ltb end used then end + 1 else used))
    else some p

-- What main writes of an input of `used` bytes.
unfoldable pub rev : Buffer ℕ → ℕ → Option (Buffer ℕ)
rev p used = reverse_lines used p used 0
