-- ===== src/Sort/Tests.antt =====
-- sort/sort.c at concrete inputs.
use u.Common.{ℕ, ◌+◌, ◌≡◌, ◌<◌, refl, some, true, false, List, [], ◌∷◌, arith}
use u.Sort.{
  Options, negate, compare_lines, compare_number, compare_signed, differ, number, drop_zeros,
  leading_digits, sign, skip_blanks, is_blank, digit, signed_result, compare_digits,
}
use u.Common.{Safe}
use u.Common.Buffer.{Buffer}
use u.Sort.Heap.{sort_lines}
use u.Sort.Order.{compare_lines-negate}
use u.Sort.Heap.{is_less}
use u.Sort.Transitive.{AtLeast, compare_lines_trans}
use u.Sort.Rearrange.{Rearranged}
use u.Sort.Sorted.{IsSorted, sort_lines-IsSorted}
use u.Sort.Output.{count_lines, newlines, unfinished, sort_buffer}
use u.Sort.Output.Lines.{lines_of}
use u.Sort.Output.Result.{IsOutput, sort_buffer-IsOutput, sort_buffer-full}

abbrev numeric_reversed : Options
numeric_reversed = record {
  reverse = true;
  numeric = true;
  fold_case = false;
  ignore_blanks = false;
  unique = false;
}

-- `-12` and ` 7x`
compare_lines-negate_example :
    compare_lines numeric_reversed (b' ' ∷ b'7' ∷ b'x' ∷ []) (b'-' ∷ b'1' ∷ b'2' ∷ [])
    ≡ negate (compare_lines numeric_reversed (b'-' ∷ b'1' ∷ b'2' ∷ []) (b' ' ∷ b'7' ∷ b'x' ∷ []))
compare_lines-negate_example =
    compare_lines-negate numeric_reversed (b'-' ∷ b'1' ∷ b'2' ∷ []) (b' ' ∷ b'7' ∷ b'x' ∷ [])

abbrev three_lines : Buffer (List ℕ)
three_lines = record { size = 3; at = λ i. (b'0' + i) ∷ [] }

compare_lines_trans_example :
    AtLeast (compare_lines numeric_reversed (b'7' ∷ []) (b'1' ∷ b'2' ∷ []))
unfolding is_less compare_lines negate compare_number compare_signed differ number drop_zeros
    leading_digits sign skip_blanks is_blank digit signed_result compare_digits
compare_lines_trans_example =
    compare_lines_trans numeric_reversed (b'7' ∷ []) (b'8' ∷ b'x' ∷ []) (b'1' ∷ b'2' ∷ []) refl refl

sort_lines-IsSorted_example :
    Safe
      (λ (d : Buffer (List ℕ)). Rearranged three_lines d × IsSorted numeric_reversed 3 d.at)
      (sort_lines numeric_reversed 3 three_lines)
sort_lines-IsSorted_example = sort_lines-IsSorted numeric_reversed three_lines

-- Three lines, of which the last one has no newline.
abbrev unfinished_text : List ℕ
unfinished_text = b'b' ∷ b'\n' ∷ b'a' ∷ b'\n' ∷ b'b' ∷ []

sort_buffer-IsOutput_example :
    Safe
      (λ (r : ℕ × List ℕ). (r.0 ≡ 0) × IsOutput numeric_reversed (lines_of unfinished_text) r.1)
      (sort_buffer numeric_reversed (count_lines unfinished_text) unfinished_text)
sort_buffer-IsOutput_example = sort_buffer-IsOutput numeric_reversed unfinished_text

sort_buffer-full_example : sort_buffer numeric_reversed 2 unfinished_text ≡ some (1, [])
unfolding count_lines unfinished newlines
sort_buffer-full_example = sort_buffer-full numeric_reversed 2 unfinished_text fewer
  where
    fewer : 2 < count_lines unfinished_text
    fewer = omega arith
