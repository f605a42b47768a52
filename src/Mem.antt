-- ===== src/Mem.antt =====
-- The searches of _lib/mem.h (memchr, memmem). A pointer into an array is an index, NULL is the
-- inner none, and an access outside the array is the outer one.
mod Find
mod Tests
use u.Common.{
  ◌%◌, ℕ, zero, suc, ◌+◌, ◌-◌, Bool, true, false, Option, none, some, ◌==◌, ltb, if◌then◌else◌,
  ◌>>=◌,
}
use u.Common.Int.{ℤ}
use u.Common.Buffer.{Buffer, read}

-- The loop of `memchr` at index `i`, with the rounds left.
unfoldable pub memchr_from : ℕ → Buffer ℕ → ℕ → ℕ → Option (Option ℕ)
memchr_from zero p byte i = some none
memchr_from (suc n) p byte i = do
  b ← read p i
  if b == byte then some (some i) else memchr_from n p byte (i + 1)

-- `(unsigned char)c`: the int modulo 256.
unfoldable pub unsigned_char : ℤ → ℕ
unsigned_char (ℤ.pos n) = n % 256
unsigned_char (ℤ.negsuc n) = 255 - n % 256

unfoldable pub memchr : Buffer ℕ → ℤ → ℕ → Option (Option ℕ)
memchr p c n = memchr_from n p (unsigned_char c) 0

-- The inner loop of `memmem` from byte `j` of the needle, with the bytes left: whether it reaches
-- the end.
unfoldable pub match_at : ℕ → Buffer ℕ → ℕ → Buffer ℕ → ℕ → Option Bool
match_at zero h i n j = some true
match_at (suc left) h i n j = do
  x ← read h (i + j)
  y ← read n j
  if x == y then match_at left h i n (j + 1) else some false

-- The outer loop from index `i`, with the rounds left.
unfoldable pub memmem_from : ℕ → Buffer ℕ → ℕ → Buffer ℕ → ℕ → Option (Option ℕ)
memmem_from zero h i n needlelen = some none
memmem_from (suc left) h i n needlelen = do
  found ← match_at needlelen h i n 0
  if found then some (some i) else memmem_from left h (i + 1) n needlelen

unfoldable pub memmem : Buffer ℕ → ℕ → Buffer ℕ → ℕ → Option (Option ℕ)
memmem h haystacklen n needlelen =
    if needlelen == 0
    then some (some 0)
    else if ltb haystacklen needlelen
    then some none
    else memmem_from (haystacklen - needlelen + 1) h 0 n needlelen
