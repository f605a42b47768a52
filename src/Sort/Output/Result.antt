-- ===== src/Sort/Output/Result.antt =====
-- What sort/sort.c (sort_buffer) returns and writes.
use u.Common.{
  ℕ, zero, suc, ◌+◌, ◌≤◌, ◌<◌, ◌≡◌, refl, true, false, none, some, List, [], ◌∷◌, ◌++◌, ◌==◌,
  length, ◌>>=◌, arith, Safe, safe, Safe-bind, Bool-cases, inl, inr,
}
use u.Common.Buffer.{Buffer}
use u.Sort.{Options}
use u.Sort.Rearrange.{Rearranged}
use u.Sort.Sorted.{IsSorted, sort_lines-IsSorted}
use u.Sort.Output.{cut, count_lines, stored, sort_buffer, sort_cut}
use u.Sort.Output.Lines.{
  lines_from, lines_of, unlines, kept_lines, skipped, cut_lem, length-lines_of, write_lines-Safe,
}
use u.Sort.Output.Unique.{IsIncreasing, HasSame, kept_lines-IsIncreasing, kept_lines-HasSame}

-- `out` is the lines `ls` in the order of `sorted`, each with a newline, of which `-u` leaves one of
-- each kind.
pub record IsOutput (o : Options) (ls : List (List ℕ)) (out : List ℕ) : Type 0 where
  pub order : Buffer (List ℕ)
  pub rearranged : Rearranged (stored ls) order
  pub sorted : IsSorted o (length ls) order.at
  pub text : out ≡ unlines (kept_lines o order.at 0 (length ls))
  pub all : o.unique ≡ false → length (kept_lines o order.at 0 (length ls)) ≡ length ls
  pub increasing : o.unique ≡ true → IsIncreasing o (kept_lines o order.at 0 (length ls))
  pub covered :
      (k : ℕ) → k < length ls → HasSame o (kept_lines o order.at 0 (length ls)) (order.at k)

length-kept_lines :
    (o : Options) (f : ℕ → List ℕ) (i rounds : ℕ)
    → o.unique ≡ false
    → length (kept_lines o f i rounds) ≡ rounds
unfolding kept_lines skipped
length-kept_lines o f i zero e = refl
length-kept_lines o f i (suc rounds) e = ground (arith, e, length-kept_lines o f (i + 1) rounds e)

-- With as much room for lines as main counts, sort_buffer, on any input and under any options, ends
-- without an access outside an array, returns 0, and writes the lines of the input in order, each
-- with a newline behind it: all of them without -u, and with -u a strictly increasing choice that
-- has for each line of the input one that compares equal to it.
pub sort_buffer-IsOutput :
    (o : Options) (input : List ℕ)
    → Safe
        (λ (r : ℕ × List ℕ). (r.0 ≡ 0) × IsOutput o (lines_of input) r.1)
        (sort_buffer o (count_lines input) input)
unfolding sort_buffer sort_cut
sort_buffer-IsOutput o input =
    rw (cut_lem (count_lines input) 0 [] input (omega (arith, length-lines_of input))) (
      Safe-bind (sort_lines-IsSorted o (stored (lines_of input))) λ sorted t.
        Safe-bind
          (write_lines-Safe o sorted 0 (length (lines_of input)) (omega (arith, t.0.size_eq)))
          λ out e. safe (
            refl,
            record {
              order = sorted;
              rearranged = t.0;
              sorted = t.1;
              text = e;
              all = length-kept_lines o sorted.at 0 (length (lines_of input));
              increasing = λ u.
                  kept_lines-IsIncreasing o sorted.at (length (lines_of input)) 0
                    (length (lines_of input)) u t.1 (omega arith);
              covered = kept_lines-HasSame o sorted.at (length (lines_of input));
            },
          ))

cut_full :
    (max n : ℕ) (line bytes : List ℕ)
    → n ≤ max
    → max < n + length (lines_from line bytes)
    → cut max n line bytes ≡ none
unfolding cut lines_from ◌>>=◌
cut_full max n line [] h k = ground arith
cut_full max n line (b ∷ bytes) h k = elim (Bool-cases (b == b'\n')) [
  | inl e ↦ elim (Bool-cases (n == max)) [
    | inl f ↦ rw (e, f) refl
    | inr f ↦
        let over : max < n + suc (length (lines_from [] bytes)) = ground (arith, k, e) in
        rw (e, f, cut_full max (n + 1) [] bytes (ground arith) (omega arith)) refl
  ]
  | inr e ↦ rw e (cut_full max n (line ++ b ∷ []) bytes h (ground (arith, k, e)))
]

-- With less room than the input has lines, sort_buffer returns 1 and writes nothing.
pub sort_buffer-full :
    (o : Options) (max : ℕ) (input : List ℕ)
    → max < count_lines input
    → sort_buffer o max input ≡ some (1, [])
unfolding sort_buffer sort_cut
sort_buffer-full o max input h =
    rw (cut_full max 0 [] input (omega arith) (omega (arith, length-lines_of input))) refl
