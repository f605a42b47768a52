-- ===== src/Vt/Utf8.antt =====
-- The byte-at-a-time UTF-8 decoder (_lib/vt.c, utf8_feed).
pub mod Bytes
pub mod RoundTrip
use u.Common.{ℕ, ◌+◌, ◌*◌, Option, none, some, ltb, ◌==◌, if◌then◌else◌, ◌>>=◌, bit_and, bit_or}
use u.Common.Buffer.{Buffer, read, write}
use u.Vt.Types.{VtParser}

-- The fields of the parser that the decoder keeps.
pub record Carry : Type 0 where
  pub utf8_buf : Buffer ℕ
  pub utf8_len : ℕ
  pub utf8_want : ℕ

-- 1 with the codepoint, 0, and -1.
pub data Decoded : Type 0 where
  complete : ℕ → Decoded
  more invalid : Decoded

abbrev pub start_seq : Carry → ℕ → ℕ → Option (Carry × Decoded)
start_seq k byte want = do
  b ← write k.utf8_buf 0 byte
  some (record k { utf8_buf = b; utf8_len = 1; utf8_want = want }, more)

unfoldable pub utf8_lead : Carry → ℕ → Option (Carry × Decoded)
utf8_lead k byte =
    if ltb byte 0x80
    then some (k, complete byte)
    else if bit_and byte 0xE0 == 0xC0
    then start_seq k byte 2
    else if bit_and byte 0xF0 == 0xE0
    then start_seq k byte 3
    else if bit_and byte 0xF8 == 0xF0
    then start_seq k byte 4
    else some (k, invalid)

-- The codepoint of a complete sequence. The shifted parts are joined by `|`.
unfoldable pub decode_two : Buffer ℕ → Option ℕ
decode_two b = do
  b0 ← read b 0
  b1 ← read b 1
  some (bit_or (bit_and b0 0x1F * 64) (bit_and b1 0x3F))

unfoldable pub decode_three : Buffer ℕ → Option ℕ
decode_three b = do
  b0 ← read b 0
  b1 ← read b 1
  b2 ← read b 2
  some (bit_or (bit_or (bit_and b0 0x0F * 4096) (bit_and b1 0x3F * 64)) (bit_and b2 0x3F))

unfoldable pub decode_four : Buffer ℕ → Option ℕ
decode_four b = do
  b0 ← read b 0
  b1 ← read b 1
  b2 ← read b 2
  b3 ← read b 3
  some (
      bit_or
        (bit_or (bit_or (bit_and b0 0x07 * 262144) (bit_and b1 0x3F * 4096)) (bit_and b2 0x3F * 64))
        (bit_and b3 0x3F))

unfoldable pub utf8_decode : Buffer ℕ → ℕ → Option ℕ
unfolding decode_two decode_three decode_four
utf8_decode b want =
    if want == 2 then decode_two b else if want == 3 then decode_three b else decode_four b

unfoldable pub utf8_next : Carry → ℕ → Option (Carry × Decoded)
utf8_next k byte =
    if bit_and byte 0xC0 == 0x80
    then (do
      b ← write k.utf8_buf k.utf8_len byte
      if ltb (k.utf8_len + 1) k.utf8_want
          then some (record k { utf8_buf = b; utf8_len = k.utf8_len + 1 }, more)
          else (do
            cp ← utf8_decode b k.utf8_want
            some (record k { utf8_buf = b; utf8_len = 0; utf8_want = 0 }, complete cp)))
    else some (record k { utf8_len = 0; utf8_want = 0 }, invalid)

unfoldable pub utf8_feed : Carry → ℕ → Option (Carry × Decoded)
utf8_feed k byte = if k.utf8_want == 0 then utf8_lead k byte else utf8_next k byte

abbrev pub carry : VtParser → Carry
carry p = record { utf8_buf = p.utf8_buf; utf8_len = p.utf8_len; utf8_want = p.utf8_want }

abbrev pub with_carry : VtParser → Carry → VtParser
with_carry p k = record p { utf8_buf = k.utf8_buf; utf8_len = k.utf8_len; utf8_want = k.utf8_want }
