-- ===== src/Tac/Tests.antt =====
-- tac/tac.c at a concrete input.
use u.Common.{ℕ, ◌≡◌, refl, some, [], ◌∷◌, ◌>>=◌, arith, Safe}
use u.Common.Buffer.{Buffer, read, write}
use u.Vt.Wire.Rows.{get_or}
use u.Tac.{LineSpan, count_loop, line_count, find_lines, line_bytes, write_back, tac}
use u.Tac.Lines.{tac-flip_lines}
use u.Tac.Bytes.{bytes, lines_of, flip_lines}

abbrev junk : ℕ → LineSpan
junk i = record { off = 9; len = 9 }

-- "a\nbc\nd", in an array with room behind it
abbrev three_lines : Buffer ℕ
three_lines = record {
  size = 8;
  at = λ i. get_or (b'a' ∷ 0x0A ∷ b'b' ∷ b'c' ∷ 0x0A ∷ b'd' ∷ []) i 0;
}

tac-flip_lines_example :
    Safe (λ out. out ≡ flip_lines (lines_of [] (bytes three_lines 0 6))) (tac junk three_lines 6)
tac-flip_lines_example = tac-flip_lines junk three_lines 6 (omega arith)

three_flipped : tac junk three_lines 6 ≡ some (b'd' ∷ b'b' ∷ b'c' ∷ 0x0A ∷ b'a' ∷ 0x0A ∷ [])
unfolding tac line_count count_loop find_lines line_bytes write_back ◌>>=◌ read write get_or
three_flipped = refl
