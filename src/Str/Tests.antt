-- ===== src/Str/Tests.antt =====
-- _lib/str.h at concrete inputs.
use u.Common.{ℕ, ◌+◌, ◌≡◌, ltb, if◌then◌else◌, arith, Safe}
use u.Common.Buffer.{Buffer, filled}
use u.Str.Decimal.{utoa}
use u.Str.Decimal.Value.{IsDecimal, utoa-IsDecimal}
use u.Str.{strlcpy, strlcat}
use u.Str.Strings.{IsString}
use u.Str.Bounded.{IsJoined, strlcpy-IsJoined, strlcat-IsJoined}

-- "ab" in an array of six bytes, and "cde".
abbrev short : Buffer ℕ
short = record { size = 6; at = λ k. if ltb k 2 then b'a' + k else 0 }

abbrev long : Buffer ℕ
long = record { size = 4; at = λ k. if ltb k 3 then b'c' + k else 0 }

short-IsString : IsString short 2
short-IsString = record { inside = omega arith; nul = omega arith; bytes = λ k p. ground arith }

long-IsString : IsString long 3
long-IsString = record { inside = omega arith; nul = omega arith; bytes = λ k p. ground arith }

strlcpy-IsJoined_example :
    Safe (λ (r : Buffer ℕ × ℕ). IsJoined short long 0 3 3 r.0 × (r.1 ≡ 3)) (strlcpy short long 3)
strlcpy-IsJoined_example = strlcpy-IsJoined short long 3 3 long-IsString (omega arith) (omega arith)

strlcat-IsJoined_example :
    Safe
      (λ (r : Buffer ℕ × ℕ). IsJoined short long 2 3 5 r.0 × (r.1 ≡ 2 + 3))
      (strlcat short long 5)
strlcat-IsJoined_example =
    strlcat-IsJoined short long 2 3 5 short-IsString long-IsString (omega arith) (omega arith)

utoa-IsDecimal_example :
    Safe (λ (r : Buffer ℕ × ℕ). IsDecimal 1207 r.0 r.1) (utoa 1207 (filled 20 0))
utoa-IsDecimal_example = utoa-IsDecimal 1207 (filled 20 0) (omega arith) (omega arith)
