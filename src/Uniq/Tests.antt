-- ===== src/Uniq/Tests.antt =====
-- uniq/uniq.c at concrete inputs.
use u.Common.{ℕ, ◌≡◌, true, false, List, [], ◌∷◌}
use u.Uniq.{Options, uniq}
use u.Uniq.Lines.{show, group_all, lines_of, uniq_lem}

abbrev ignoring : Options
ignoring = record { opt_count = false; opt_ignore_case = true }

-- The lines `a`, `A`, `b`, and `b` without a newline.
abbrev four_lines : List ℕ
four_lines = b'a' ∷ 0x0A ∷ b'A' ∷ 0x0A ∷ b'b' ∷ 0x0A ∷ b'b' ∷ []

uniq_lem_example :
    uniq ignoring four_lines ≡ show ignoring (group_all ignoring (lines_of [] four_lines))
uniq_lem_example = uniq_lem ignoring four_lines
