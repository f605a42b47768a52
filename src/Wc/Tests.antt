-- ===== src/Wc/Tests.antt =====
-- wc/wc.c at a concrete input.
use mathlib.Core.List.{flatten}
use u.Common.{ℕ, ◌≡◌, false, some, List, [], ◌∷◌, map, length, arith}
use u.Wc.{Counts, is_newline, is_start, count_fd}
use u.Wc.Chunks.{tally, word_starts, wrapped_counts, count_fd_lem}

-- A word that is cut in two, and a character that is cut in two.
abbrev two_reads : List (List ℕ)
two_reads = (b'a' ∷ b' ' ∷ b'b' ∷ []) ∷ (b'c' ∷ 0xC3 ∷ []) ∷ (0xA9 ∷ 0x0A ∷ []) ∷ []

count_fd_lem_example : ◌≡◌ {A = ℕ × Counts} (count_fd (map some two_reads)) (
  0,
  wrapped_counts
      (tally is_newline (flatten two_reads))
      (word_starts false (flatten two_reads))
      (tally is_start (flatten two_reads))
      (length (flatten two_reads)),
)
count_fd_lem_example = count_fd_lem two_reads (omega arith)
