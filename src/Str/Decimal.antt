-- ===== src/Str/Decimal.antt =====
-- The decimal numerals of _lib/str.h (utoa). An access outside the buffer, or a loop that has used
-- up its fuel, is `none`.
pub mod Value
use u.Common.{ℕ, zero, suc, ◌+◌, ◌-◌, ◌/◌, ◌%◌, Option, none, some, ◌==◌, ltb, if◌then◌else◌, ◌>>=◌}
use u.Common.Buffer.{Buffer, read, write}

-- The first loop: the digits of `v`, the last one first, from `buf[n]`, and their number. A number of
-- 64 bits has 20 digits at most.
unfoldable pub put_digits : ℕ → ℕ → Buffer ℕ → ℕ → Option (Buffer ℕ × ℕ)
put_digits zero v buf n = none
put_digits (suc fuel) v buf n = do
  buf' ← write buf n (b'0' + v % 10)
  if v / 10 == 0 then some (buf', n + 1) else put_digits fuel (v / 10) buf' (n + 1)

-- The second loop: `buf[i]`, …, `buf[j]` reversed.
unfoldable pub reverse_digits : ℕ → Buffer ℕ → ℕ → ℕ → Option (Buffer ℕ)
reverse_digits zero buf i j = if ltb i j then none else some buf
reverse_digits (suc fuel) buf i j =
    if ltb i j
    then (do
      c ← read buf i
      d ← read buf j
      b1 ← write buf i d
      b2 ← write b1 j c
      reverse_digits fuel b2 (i + 1) (j - 1))
    else some buf

unfoldable pub utoa : ℕ → Buffer ℕ → Option (Buffer ℕ × ℕ)
utoa v buf = do
  (digits, n) ← put_digits 20 v buf 0
  reversed ← reverse_digits n digits 0 (n - 1)
  some (reversed, n)
