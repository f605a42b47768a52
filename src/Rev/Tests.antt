-- ===== src/Rev/Tests.antt =====
-- rev/rev.c at a concrete input.
use u.Common.{ℕ, ◌+◌, ◌==◌, if◌then◌else◌, arith, Safe}
use u.Common.Buffer.{Buffer}
use u.Rev.{rev}
use u.Rev.Lines.{IsReversed, rev-IsReversed}

-- "ab", a newline, and "de" without one.
abbrev two_lines : Buffer ℕ
two_lines = record { size = 6; at = λ k. if k == 2 then b'\n' else b'a' + k }

rev-IsReversed_example : Safe (IsReversed two_lines 5 0) (rev two_lines 5)
rev-IsReversed_example = rev-IsReversed two_lines 5 (omega arith)
