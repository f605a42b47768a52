-- ===== src/Mem/Tests.antt =====
-- _lib/mem.h at concrete inputs.
use u.Common.{ℕ, ◌+◌, ◌%◌, arith, Safe}
use u.Common.Int.{ℤ}
use u.Common.Buffer.{Buffer}
use u.Mem.{memchr, memmem}
use u.Mem.Find.{IsFirst, IsFirstByte, memmem-IsFirst, memchr-IsFirstByte}

-- "abab" and "ba".
abbrev haystack : Buffer ℕ
haystack = record { size = 4; at = λ k. b'a' + k % 2 }

abbrev needle : Buffer ℕ
needle = record { size = 2; at = λ k. b'a' + (k + 1) % 2 }

memmem-IsFirst_example : Safe (IsFirst haystack 4 needle 2 0) (memmem haystack 4 needle 2)
memmem-IsFirst_example = memmem-IsFirst haystack 4 needle 2 (omega arith) (omega arith)

-- The byte 0xE2, as a negative char.
abbrev accented : Buffer ℕ
accented = record { size = 4; at = λ k. 0xE0 + k }

memchr-IsFirstByte_example : Safe (IsFirstByte accented 4 0xE2 0) (memchr accented (ℤ.negsuc 29) 4)
memchr-IsFirstByte_example =
    memchr-IsFirstByte accented (ℤ.negsuc 29) 0xE2 4 (omega arith, (1, omega arith)) (omega arith)
