-- ===== src/Uniq/Lines.antt =====
-- What uniq/uniq.c writes, described on the list of lines: the lines are cut first, runs of
-- matching neighbours are grouped, and each group is written.
use u.Common.{
  ℕ, ◌+◌, ◌-◌, ◌≡◌, refl, ◌∙◌, true, false, List, [], ◌∷◌, ◌++◌, ◌==◌, ltb, if◌then◌else◌, length,
  arith, Bool-cases, inl, inr,
}
use mathlib.Core.List.{append_assoc, append-nil}
use u.Uniq.{
  Options, Uniq, max_line, lines_match, output_line, take_line, take_byte, take_bytes, finish,
  start, uniq,
}

-- The lines of a text, each cut to 4095 bytes; `acc` is the line so far.
unfoldable pub lines_of : List ℕ → List ℕ → List (List ℕ)
lines_of acc [] = if ltb 0 (length acc) then acc ∷ [] else []
lines_of acc (c ∷ cs) =
    if c == 0x0A
    then acc ∷ lines_of [] cs
    else lines_of (if ltb (length acc) (max_line - 1) then acc ++ c ∷ [] else acc) cs

-- Each group is its first line with the number of its lines.
unfoldable pub groups : Options → List ℕ → ℕ → List (List ℕ) → List (List ℕ × ℕ)
groups o p n [] = (p, n) ∷ []
groups o p n (l ∷ ls) =
    if lines_match o l p then groups o p (n + 1) ls else (p, n) ∷ groups o l 1 ls

unfoldable pub group_all : Options → List (List ℕ) → List (List ℕ × ℕ)
group_all o [] = []
group_all o (l ∷ ls) = groups o l 1 ls

unfoldable pub show : Options → List (List ℕ × ℕ) → List ℕ
show o [] = []
show o (g ∷ gs) = (output_line o g.0 g.1 ++ 0x0A ∷ []) ++ show o gs

-- The groups that are still to be written in a state, with the lines still to come.
unfoldable pending : Options → Uniq → List (List ℕ) → List (List ℕ × ℕ)
pending o s ls = if s.first_line then group_all o ls else groups o s.prev s.count ls

-- Taking a line moves it from what is to come into what is written or counted.
take-pending :
    (o : Options) (s : Uniq) (ls : List (List ℕ))
    → (take_line o s).out ++ show o (pending o (take_line o s) ls)
      ≡ s.out ++ show o (pending o s (s.line ∷ ls))
unfolding take_line pending groups group_all show
take-pending o s ls = elim (Bool-cases s.first_line) [
  | inl e ↦ ground arith
  | inr e ↦ elim (Bool-cases (lines_match o s.line s.prev)) [
    | inl m ↦ ground arith
    | inr m ↦ simp (e, m, append_assoc)
  ]
]

take_line-started : (o : Options) (s : Uniq) → (take_line o s).first_line ≡ false
unfolding take_line
take_line-started o s = ground arith

-- The run that is open at the end.
open_run :
    (o : Options) (s : Uniq)
    → s.first_line ≡ false
    → s.out ++ output_line o s.prev s.count ++ 0x0A ∷ [] ≡ s.out ++ show o (pending o s [])
unfolding pending groups show
open_run o s e = rw (e, append-nil, append_assoc) refl

-- Before the first line nothing is to be written.
nothing_left :
    (o : Options) (s : Uniq) → s.first_line ≡ true → s.out ≡ s.out ++ show o (pending o s [])
unfolding pending group_all show
nothing_left o s e = rw (e, append-nil) refl

finish-pending :
    (o : Options) (s : Uniq) → finish o s ≡ s.out ++ show o (pending o s (lines_of s.line []))
unfolding finish lines_of
finish-pending o s = elim (Bool-cases (ltb 0 (length s.line))) [
  | inl e ↦ rw e (open_run o (take_line o s) (take_line-started o s) ∙ take-pending o s [])
  | inr e ↦ elim (Bool-cases s.first_line) [
    | inl f ↦ simp (e, f) (nothing_left o s f)
    | inr f ↦ simp (e, f) (open_run o s f)
  ]
]

run-pending :
    (o : Options) (s : Uniq) (cs : List ℕ)
    → finish o (take_bytes o s cs) ≡ s.out ++ show o (pending o s (lines_of s.line cs))
unfolding take_bytes take_byte lines_of take_line pending
run-pending o s [] = finish-pending o s
run-pending o s (c ∷ cs) = elim (Bool-cases (c == 0x0A)) [
  | inl e ↦
      rw e (
        run-pending o (record (take_line o s) { line = [] }) cs ∙ take-pending o s (lines_of [] cs))
  | inr e ↦ elim (Bool-cases (ltb (length s.line) (max_line - 1))) [
    | inl f ↦ rw (e, f) (run-pending o (record s { line = s.line ++ c ∷ [] }) cs)
    | inr f ↦ rw (e, f) (run-pending o s cs)
  ]
]

-- The output of uniq is the groups of matching neighbours among the lines of the input, each
-- written once, with the number of its lines where the counts are asked for.
pub uniq_lem :
    (o : Options) (input : List ℕ) → uniq o input ≡ show o (group_all o (lines_of [] input))
unfolding uniq pending
uniq_lem o input = run-pending o start input
