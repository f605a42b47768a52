-- ===== src/Tac/Lines.antt =====
-- tac/tac.c writes the lines of its input, the last one first.
use u.Common.{
  ℕ, zero, suc, ◌+◌, ◌-◌, ◌≤◌, ◌<◌, ◌≡◌, refl, sym, ap, ◌∙◌, true, false, List, [], ◌∷◌, ◌++◌, ◌==◌,
  ltb, if◌then◌else◌, length, arith, Safe, safe, ◌>>=◌, Safe-bind, Safe-if, Safe-mono, Bool-cases,
  inl, inr,
}
use mathlib.Core.List.{append_assoc, append-nil}
use u.Common.Buffer.{Buffer, put, read-Safe, write-put}
use u.Tac.{LineSpan, count_loop, line_count, find_lines, tac}
use u.Tac.Bytes.{
  bytes, lines_of, flip_lines, length-bytes, bytes-grow, no_bytes, shown, Inside, write_back-shown,
  shown-add, Inside-put,
}

-- The lines from byte `i` on, where the line so far starts at `start`.
abbrev rest_lines : Buffer ℕ → ℕ → ℕ → ℕ → List (List ℕ)
rest_lines a start i left = lines_of (bytes a start (i - start)) (bytes a i left)

rest_lines-newline :
    (a : Buffer ℕ) (start i left : ℕ)
    → start ≤ i
    → (a.at i == b'\n') ≡ true
    → rest_lines a start i (suc left)
      ≡ bytes a start (i + 1 - start) ∷ rest_lines a (i + 1) (i + 1) left
unfolding lines_of bytes
rest_lines-newline a start i left h e = rw (e, bytes-grow a start i h, no_bytes a (i + 1)) refl

rest_lines-byte :
    (a : Buffer ℕ) (start i left : ℕ)
    → start ≤ i
    → (a.at i == b'\n') ≡ false
    → rest_lines a start i (suc left) ≡ rest_lines a start (i + 1) left
unfolding lines_of bytes
rest_lines-byte a start i left h e = rw (e, bytes-grow a start i h) refl

-- What is left at the end: a line that no newline ends, or nothing.
rest_lines-end :
    (a : Buffer ℕ) (start i : ℕ)
    → rest_lines a start i 0 ≡ (if ltb start i then bytes a start (i - start) ∷ [] else [])
unfolding lines_of bytes
rest_lines-end a start i = ground (arith, length-bytes a start (i - start))

count_loop-length :
    (a : Buffer ℕ) (i left nlines start : ℕ)
    → i + left ≤ a.size
    → start ≤ i
    → Safe
        (λ (r : ℕ × ℕ).
          (if ltb r.1 (i + left) then r.0 + 1 else r.0)
          ≡ nlines + length (rest_lines a start i left))
        (count_loop a i left nlines start)
unfolding count_loop
count_loop-length a i zero nlines start h k = safe (rw (rest_lines-end a start i) (ground arith))
count_loop-length a i (suc left) nlines start h k =
    let past : i + suc left ≡ i + 1 + left = omega arith in
    Safe-bind (read-Safe a i (omega arith)) λ c r. elim (Bool-cases (a.at i == b'\n')) [
      | inl e ↦
          rw (r, e, past)
            (Safe-mono
              (count_loop-length a (i + 1) left (nlines + 1) (i + 1) (omega arith) (omega arith))
              λ x q. rw (rest_lines-newline a start i left k e) (omega (arith, q)))
      | inr e ↦
          rw (r, e, past)
            (Safe-mono (count_loop-length a (i + 1) left nlines start (omega arith) (omega arith))
              λ x q. rw (rest_lines-byte a start i left k e) q)
    ]

-- What the array of lines shows in the end.
record Found (a : Buffer ℕ) (text : List ℕ) (r : Buffer LineSpan × ℕ) : Type 0 where
  in_array : r.1 ≤ r.0.size
  inside : Inside a r.0 r.1
  shows : shown a r.0 r.1 ≡ text

-- Adding a line to the array is moving it from what is to come to what is shown.
flip_lines-shown :
    (a : Buffer ℕ) (lines : Buffer LineSpan) (n : ℕ) (l : LineSpan) {ls rest : List (List ℕ)}
    → ls ≡ bytes a l.off l.len ∷ rest
    → flip_lines rest ++ shown a (put lines n l) (n + 1) ≡ flip_lines ls ++ shown a lines n
unfolding flip_lines
flip_lines-shown a lines n l {ls} {rest} e =
    rw (e, shown-add a lines n l)
      (sym (append_assoc (flip_lines rest) (bytes a l.off l.len) (shown a lines n)))

find_lines-Found :
    (a : Buffer ℕ) (i left : ℕ) (lines : Buffer LineSpan) (nlines start : ℕ)
    → i + left ≤ a.size
    → start ≤ i
    → nlines + length (rest_lines a start i left) ≤ lines.size
    → Inside a lines nlines
    → Safe
        (Found a (flip_lines (rest_lines a start i left) ++ shown a lines nlines))
        (find_lines a i left lines nlines start)
unfolding find_lines flip_lines shown ◌>>=◌
find_lines-Found a i zero lines nlines start h k room v = rw (rest_lines-end a start i) (
    Safe-if (ltb start i)
      (λ c.
        let l : LineSpan = record { off = start; len = i - start } in
        Safe-bind (write-put lines nlines l (one_left c)) λ lines' e. safe (
          rw e (record {
            in_array = ground (arith, one_left c);
            inside = Inside-put a lines nlines l v (omega arith);
            shows = rw c (shown-add a lines nlines l);
          })))
      (λ c. safe (record { in_array = omega arith; inside = v; shows = rw c refl })))
  where
    one_left : ltb start i ≡ true → nlines < lines.size
    one_left c =
        let e = rest_lines-end a start i in
        let one : length (rest_lines a start i 0) ≡ 1 = rw (e, c) refl in omega arith
find_lines-Found a i (suc left) lines nlines start h k room v =
    Safe-bind (read-Safe a i (omega arith)) λ c r. elim (Bool-cases (a.at i == b'\n')) [
      | inl e ↦
          let l : LineSpan = record { off = start; len = i + 1 - start } in
          let split = rest_lines-newline a start i left k e in
          let more : nlines + 1 + length (rest_lines a (i + 1) (i + 1) left) ≤ lines.size =
            omega (arith, ap length split) in
          rw (r, e)
            (Safe-bind (write-put lines nlines l (omega arith)) λ lines' p. rw p (
              Safe-mono
                (find_lines-Found a (i + 1) left (put lines nlines l) (nlines + 1) (i + 1)
                  (omega arith) (omega arith) more (Inside-put a lines nlines l v (omega arith)))
                λ x q. record {
                  in_array = q.in_array;
                  inside = q.inside;
                  shows = q.shows ∙ flip_lines-shown a lines nlines l split;
                }))
      | inr e ↦
          let same = rest_lines-byte a start i left k e in
          rw (r, e, same)
            (find_lines-Found a (i + 1) left lines nlines start (omega arith) (omega arith)
              (rw (← same) room) v)
    ]

line_count-length :
    (a : Buffer ℕ) (used : ℕ)
    → used ≤ a.size
    → Safe (λ n. n ≡ length (lines_of [] (bytes a 0 used))) (line_count a used)
unfolding line_count
line_count-length a used h =
    Safe-bind (count_loop-length a 0 used 0 0 (omega arith) (omega arith)) λ r q.
      let all : 0 + used ≡ used = omega arith in
      let none_yet = no_bytes a 0 in safe (rw (all, none_yet) at q ∙ omega arith)

-- On any input, whose bytes are in the array, tac ends, makes no access outside the input or the
-- array of lines, for which it counts them first, and writes the lines of the input, each with its
-- newline, the last one first; a last line without a newline is written as it is.
pub tac-flip_lines :
    (junk : ℕ → LineSpan) (a : Buffer ℕ) (used : ℕ)
    → used ≤ a.size
    → Safe (λ out. out ≡ flip_lines (lines_of [] (bytes a 0 used))) (tac junk a used)
unfolding tac bytes shown
tac-flip_lines junk a used h = Safe-bind (line_count-length a used h) λ n e.
    Safe-bind
      (find_lines-Found a 0 used (record { size = n; at = junk }) 0 0 (omega arith) (omega arith)
        (omega (arith, e)) (λ j k. absurd (omega arith)))
      λ r f.
        Safe-mono (write_back-shown a r.0 r.1 f.in_array f.inside)
          λ out w. w ∙ f.shows ∙ append-nil (flip_lines (lines_of [] (bytes a 0 used)))
