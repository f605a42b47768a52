-- ===== src/Uniq.antt =====
-- The filter of uniq/uniq.c. A line is kept as the bytes of the buffer that are in use, so that
-- `pos` is the length of `line` and `prev_len` that of `prev`.
mod Lines
mod Tests
use u.Common.{
  ℕ, zero, suc, ◌+◌, ◌-◌, ◌/◌, ◌%◌, Bool, true, false, not, ◌&&◌, ◌||◌, List, [], ◌∷◌, ◌++◌, ◌==◌,
  ltb, leb, if◌then◌else◌, length,
}

abbrev pub max_line : ℕ
max_line = 4096

pub record Options : Type 0 where
  pub opt_count : Bool
  pub opt_ignore_case : Bool

pub record Uniq : Type 0 where
  pub line : List ℕ
  pub prev : List ℕ
  pub count : ℕ
  pub first_line : Bool
  -- what was written to the standard output
  pub out : List ℕ

-- ASCII letters in lower case
unfoldable pub lower : ℕ → ℕ
lower c = if leb b'A' c && leb c b'Z' then c + (b'a' - b'A') else c

-- `strequal_ic`, true where the code returns 0, on two lines of one length
unfoldable pub strequal_ic : List ℕ → List ℕ → Bool
strequal_ic (x ∷ xs) (y ∷ ys) = (lower x == lower y) && strequal_ic xs ys
strequal_ic _ _ = true

-- the loop that compares byte by byte, on two lines of one length
unfoldable pub same_bytes : List ℕ → List ℕ → Bool
same_bytes (x ∷ xs) (y ∷ ys) = (x == y) && same_bytes xs ys
same_bytes _ _ = true

unfoldable pub lines_match : Options → List ℕ → List ℕ → Bool
lines_match o line prev =
    if not (length line == length prev)
    then false
    else if o.opt_ignore_case
    then strequal_ic line prev
    else same_bytes line prev

-- The letters of one option.
unfoldable pub parse_letters : List ℕ → Options → Options
parse_letters [] o = o
parse_letters (c ∷ cs) o = parse_letters cs (
    if c == b'c'
    then record o { opt_count = true }
    else if c == b'i'
    then record o { opt_ignore_case = true }
    else o)

-- `parse_args`, on the arguments after the program's name
unfoldable pub parse_args : List (List ℕ) → Options → Options
parse_args [] o = o
parse_args ([] ∷ args) o = parse_args args o
parse_args ((c ∷ cs) ∷ args) o = parse_args args (if c == b'-' then parse_letters cs o else o)

-- Digits put before `p`, and their number added to `n`; a 64-bit count has at most 20.
unfoldable pub digits : ℕ → ℕ → List ℕ → ℕ → List ℕ × ℕ
digits zero c p n = (p, n)
digits (suc fuel) c p n =
    let p' = (b'0' + c % 10) ∷ p in
    let rest = digits fuel (c / 10) p' (n + 1) in if c / 10 == 0 then (p', n + 1) else rest

unfoldable pub spaces : ℕ → List ℕ → List ℕ
spaces zero p = p
spaces (suc n) p = spaces n (b' ' ∷ p)

-- `output_line`, the bytes it writes
unfoldable pub output_line : Options → List ℕ → ℕ → List ℕ
output_line o line count =
    let d = digits 20 count (b' ' ∷ []) 0 in
    if o.opt_count then spaces (7 - d.1) d.0 ++ line else line

-- A line is complete: it is the first one, it continues the run, or it ends the run before it.
unfoldable pub take_line : Options → Uniq → Uniq
take_line o s =
    if s.first_line
    then record s { prev = s.line; count = 1; first_line = false }
    else if lines_match o s.line s.prev
    then record s { count = s.count + 1 }
    else record s {
      out = s.out ++ output_line o s.prev s.count ++ 0x0A ∷ [];
      prev = s.line;
      count = 1;
    }

-- One byte. A line keeps its first 4095 bytes.
unfoldable pub take_byte : Options → Uniq → ℕ → Uniq
take_byte o s c =
    if c == 0x0A
    then record (take_line o s) { line = [] }
    else if ltb (length s.line) (max_line - 1)
    then record s { line = s.line ++ c ∷ [] }
    else s

unfoldable pub take_bytes : Options → Uniq → List ℕ → Uniq
take_bytes o s [] = s
take_bytes o s (c ∷ cs) = take_bytes o (take_byte o s c) cs

-- After the end of the input: a last line without a newline, and the run that is open.
unfoldable pub finish : Options → Uniq → List ℕ
finish o s =
    let t = if ltb 0 (length s.line) then take_line o s else s in
    if ltb 0 (length s.line) || not s.first_line
    then t.out ++ output_line o t.prev t.count ++ 0x0A ∷ []
    else s.out

abbrev pub start : Uniq
start = record { line = []; prev = []; count = 0; first_line = true; out = [] }

-- The output for an input.
unfoldable pub uniq : Options → List ℕ → List ℕ
uniq o input = finish o (take_bytes o start input)
