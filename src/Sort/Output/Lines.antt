-- ===== src/Sort/Output/Lines.antt =====
-- The lines that sort_buffer (sort/sort.c) finds and writes.
use u.Common.{
  ℕ, zero, suc, ◌+◌, ◌-◌, ◌≤◌, ◌<◌, ◌≡◌, refl, Bool, true, false, ◌&&◌, not, some, List, [], ◌∷◌,
  ◌++◌, ◌==◌, length, length-append, ◌>>=◌, if◌then◌else◌, arith, Safe, safe, Safe-bind, Safe-if,
  Bool-cases, inl, inr,
}
use u.Common.Buffer.{Buffer, read-Safe}
use u.Sort.{Options, compare_lines}
use u.Sort.Output.{cut, newlines, unfinished, count_lines, is_equal, repeats, write_lines}

-- The lines of a text, where `line` stands before it: each ends at a newline, and the last one at the
-- end of the text, unless it is empty.
unfoldable pub lines_from : List ℕ → List ℕ → List (List ℕ)
lines_from line [] = if length line == 0 then [] else line ∷ []
lines_from line (b ∷ bytes) =
    let longer = lines_from (line ++ b ∷ []) bytes in
    let next = lines_from [] bytes in if b == b'\n' then line ∷ next else longer

abbrev pub lines_of : List ℕ → List (List ℕ)
lines_of input = lines_from [] input

-- Every line with a newline behind it.
unfoldable pub unlines : List (List ℕ) → List ℕ
unlines [] = []
unlines (l ∷ ls) = l ++ b'\n' ∷ unlines ls

-- Whether `-u` leaves line `i` out.
unfoldable pub skipped : Options → (ℕ → List ℕ) → ℕ → Bool
skipped o f i =
    if o.unique && not (i == 0) then is_equal (compare_lines o (f (i - 1)) (f i)) else false

-- The lines `i`, `i + 1`, … that are written, of `rounds` lines.
unfoldable pub kept_lines : Options → (ℕ → List ℕ) → ℕ → ℕ → List (List ℕ)
kept_lines o f i zero = []
kept_lines o f i (suc rounds) =
    let rest = kept_lines o f (i + 1) rounds in if skipped o f i then rest else f i ∷ rest

repeats-Safe :
    (o : Options) (lines : Buffer (List ℕ)) (i : ℕ)
    → i < lines.size
    → Safe (λ s. s ≡ skipped o lines.at i) (repeats o lines i)
unfolding repeats skipped
repeats-Safe o lines i h =
    Safe-if (o.unique && not (i == 0))
      (λ e.
        Safe-bind (read-Safe lines (i - 1) (omega arith))
          λ x p. Safe-bind (read-Safe lines i h) λ y q. safe (rw (p, q, e) refl))
      (λ e. safe (rw e refl))

pub write_lines-Safe :
    (o : Options) (lines : Buffer (List ℕ)) (i rounds : ℕ)
    → i + rounds ≤ lines.size
    → Safe (λ out. out ≡ unlines (kept_lines o lines.at i rounds)) (write_lines o lines i rounds)
unfolding write_lines unlines kept_lines
write_lines-Safe o lines i zero h = safe refl
write_lines-Safe o lines i (suc rounds) h = Safe-bind (repeats-Safe o lines i (omega arith)) λ s p.
    Safe-bind (read-Safe lines i (omega arith)) λ l q.
      Safe-bind (write_lines-Safe o lines (i + 1) rounds (omega arith))
        λ rest e. safe (rw (p, q, e) (written (skipped o lines.at i)))
  where
    written :
        (b : Bool)
        → (if b
            then unlines (kept_lines o lines.at (i + 1) rounds)
            else lines.at i ++ b'\n' ∷ unlines (kept_lines o lines.at (i + 1) rounds))
          ≡ unlines (
              if b
              then kept_lines o lines.at (i + 1) rounds
              else lines.at i ∷ kept_lines o lines.at (i + 1) rounds)
    written true = refl
    written false = refl

length-lines_from :
    (line : List ℕ) (b : ℕ) (bytes : List ℕ)
    → length (lines_from line (b ∷ bytes)) ≡ count_lines (b ∷ bytes)
unfolding lines_from count_lines newlines unfinished
length-lines_from line b [] = ground (arith, length-append line (b ∷ []))
length-lines_from line b (c ∷ bytes) =
    let next = length-lines_from [] c bytes in
    let longer = length-lines_from (line ++ b ∷ []) c bytes in
    rest (b == b'\n') (lines_from [] (c ∷ bytes)) (lines_from (line ++ b ∷ []) (c ∷ bytes))
      (unfinished (c ∷ bytes)) (newlines (c ∷ bytes)) next longer
  where
    rest :
        (t : Bool) (xs ys : List (List ℕ)) (u : Bool) (k : ℕ)
        → length xs ≡ (if u then k + 1 else k)
        → length ys ≡ (if u then k + 1 else k)
        → length (if t then line ∷ xs else ys)
          ≡ (if u then (if t then k + 1 else k) + 1 else (if t then k + 1 else k))
    rest t xs ys u k e e' = ground arith

-- main counts as many lines as sort_buffer finds.
pub length-lines_of : (input : List ℕ) → length (lines_of input) ≡ count_lines input
unfolding lines_from count_lines newlines unfinished
length-lines_of [] = refl
length-lines_of (b ∷ bytes) = length-lines_from [] b bytes

-- `cut` finds room for all the lines.
pub cut_lem :
    (max n : ℕ) (line bytes : List ℕ)
    → n + length (lines_from line bytes) ≤ max
    → cut max n line bytes ≡ some (lines_from line bytes)
unfolding cut lines_from ◌>>=◌
cut_lem max n line [] h = ground arith
cut_lem max n line (b ∷ bytes) h = elim (Bool-cases (b == b'\n')) [
  | inl e ↦
      let room : n + suc (length (lines_from [] bytes)) ≤ max = ground (arith, h, e) in
      let free : (n == max) ≡ false = ground arith in
      rw (e, free, cut_lem max (n + 1) [] bytes (omega arith)) refl
  | inr e ↦ rw e (cut_lem max n (line ++ b ∷ []) bytes (ground (arith, h, e)))
]
