-- ===== src/Str.antt =====
-- The string functions of _lib/str.h. A string is an array of bytes, and a function reads it up to
-- its NUL. An access outside the array, or a scan that has used up its fuel, is `none`.
pub mod Strings
mod Copy
pub mod Decimal
pub mod Bounded
mod Tests
use u.Common.{
  ℕ, zero, suc, ◌+◌, ◌-◌, Option, none, some, ◌==◌, ◌&&◌, leb, if◌then◌else◌, ◌>>=◌, bit_or,
}
use u.Common.Buffer.{Buffer, read, write}

-- `while (*p) p++`, from index `i`: the index of the first NUL.
unfoldable pub scan : ℕ → Buffer ℕ → ℕ → Option ℕ
scan zero s i = none
scan (suc fuel) s i = do c ← read s i; if c == 0 then some i else scan fuel s (i + 1)

unfoldable pub strlen : Buffer ℕ → Option ℕ
strlen s = scan s.size s 0

-- The loop of `strlcpy` and `strlcat`, where `nleft` is one more than the rounds: bytes from `s[i]`
-- go to `d[j]` until a NUL has, or a NUL is written in the last place. The result has the index in
-- `s` of its NUL.
unfoldable pub copy : ℕ → Buffer ℕ → ℕ → Buffer ℕ → ℕ → Option (Buffer ℕ × ℕ)
copy zero d j s i = do d' ← write d j 0; n ← scan s.size s i; some (d', n)
copy (suc rounds) d j s i = do
  c ← read s i
  d' ← write d j c
  if c == 0 then some (d', i) else copy rounds d' (j + 1) s (i + 1)

-- The destination and the result.
unfoldable pub strlcpy : Buffer ℕ → Buffer ℕ → ℕ → Option (Buffer ℕ × ℕ)
strlcpy dst src zero = do n ← strlen src; some (dst, n)
strlcpy dst src (suc nleft) = copy nleft dst 0 src 0

-- The end of `dst`, or `dsize` where no NUL is before it, with the rounds left.
unfoldable pub find_end : ℕ → Buffer ℕ → ℕ → Option ℕ
find_end zero d j = some j
find_end (suc nleft) d j = do c ← read d j; if c == 0 then some j else find_end nleft d (j + 1)

-- `d - dst` is `end` after the first loop, and the copy that follows adds the length of `src`.
unfoldable pub append_at : Buffer ℕ → Buffer ℕ → ℕ → ℕ → Option (Buffer ℕ × ℕ)
append_at dst src end zero = do n ← strlen src; some (dst, end + n)
append_at dst src end (suc nleft) = do (d, n) ← copy nleft dst end src 0; some (d, end + n)

unfoldable pub strlcat : Buffer ℕ → Buffer ℕ → ℕ → Option (Buffer ℕ × ℕ)
strlcat dst src dsize = do end ← find_end dsize dst 0; append_at dst src end (dsize - end)
