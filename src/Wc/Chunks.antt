-- ===== src/Wc/Chunks.antt =====
-- The counts of wc/wc.c, described on the whole text: how read cuts it does not matter.
use u.Common.{
  ℕ, ◌+◌, ◌%◌, ◌≤◌, ◌≡◌, refl, ap, ◌∙◌, Bool, true, false, not, Option, some, List, [], ◌∷◌, ◌++◌,
  map, if◌then◌else◌, length, length-append, arith, All,
}
use mathlib.Core.List.{flatten}
use u.Wc.{
  Counts, word, is_space, is_start, is_newline, bump, count_byte, count_bytes, count_reads,
  count_fd,
}

-- How many bytes of a text satisfy `p`.
unfoldable pub tally : (ℕ → Bool) → List ℕ → ℕ
tally p [] = 0
tally p (b ∷ bs) = if p b then 1 + tally p bs else tally p bs

-- How many words start in a text; the flag says that it begins inside one.
unfoldable pub word_starts : Bool → List ℕ → ℕ
word_starts in_word [] = 0
word_starts in_word (b ∷ bs) =
    if is_space b
    then word_starts false bs
    else (if in_word then word_starts true bs else 1 + word_starts true bs)

-- Whether a text ends inside a word.
unfoldable ends_in_word : Bool → List ℕ → Bool
ends_in_word in_word [] = in_word
ends_in_word in_word (b ∷ bs) = if is_space b then ends_in_word false bs else ends_in_word true bs

-- The counters at given numbers, wrapped.
abbrev pub wrapped_counts : ℕ → ℕ → ℕ → ℕ → Counts
wrapped_counts l w m y = record {
  lines = l % word;
  words = w % word;
  chars = m % word;
  bytes = y % word;
}

bump_lem : (p : Bool) (x : ℕ) → bump p (x % word) ≡ (if p then x + 1 else x) % word
unfolding bump
bump_lem true x = omega arith
bump_lem false x = refl

same_counts :
    {l l' w w' m m' y y' : ℕ}
    → l ≡ l'
    → w ≡ w'
    → m ≡ m'
    → y ≡ y'
    → wrapped_counts l w m y ≡ wrapped_counts l' w' m' y'
same_counts e f g h = rw (e, f, g, h) refl

count_byte_lem :
    (l w m y : ℕ) (in_word : Bool) (b : ℕ)
    → count_byte (wrapped_counts l w m y, in_word) b ≡ (
      wrapped_counts
          (if is_newline b then l + 1 else l)
          (if is_space b then w else (if in_word then w else w + 1))
          (if is_start b then m + 1 else m)
          y,
      not (is_space b),
    )
unfolding count_byte
count_byte_lem l w m y in_word b =
    rw (bump_lem (is_start b) m, bump_lem (is_newline b) l, bump_lem true w)
      (cases (if is_newline b then l + 1 else l) (if is_start b then m + 1 else m) (is_space b)
        in_word)
  where
    cases :
        (l' m' : ℕ) (p q : Bool)
        → ◌≡◌ {A = Counts × Bool}
            (if p
              then (wrapped_counts l' w m' y, false)
              else (if q
                  then (wrapped_counts l' w m' y, true)
                  else (wrapped_counts l' (w + 1) m' y, true)))
            (wrapped_counts l' (if p then w else (if q then w else w + 1)) m' y, not p)
    cases l' m' true q = refl
    cases l' m' false true = refl
    cases l' m' false false = refl

same_pair :
    {c c' : Counts} {i i' : Bool} → c ≡ c' → i ≡ i' → ◌≡◌ {A = Counts × Bool} (c, i) (c', i')
same_pair e f = rw (e, f) refl

count_bytes_lem :
    (l w m y : ℕ) (in_word : Bool) (bs : List ℕ)
    → count_bytes (wrapped_counts l w m y, in_word) bs ≡ (
      wrapped_counts
          (l + tally is_newline bs)
          (w + word_starts in_word bs)
          (m + tally is_start bs)
          y,
      ends_in_word in_word bs,
    )
unfolding count_bytes tally word_starts ends_in_word
count_bytes_lem l w m y in_word [] =
    ap (λ c. (c, in_word)) (same_counts (omega arith) (omega arith) (omega arith) refl)
count_bytes_lem l w m y in_word (b ∷ bs) = rw (count_byte_lem l w m y in_word b) (
    count_bytes_lem (if is_newline b then l + 1 else l)
      (if is_space b then w else (if in_word then w else w + 1)) (if is_start b then m + 1 else m) y
      (not (is_space b)) bs
    ∙ same_pair (same_counts (ground arith) (words (is_space b) in_word) (ground arith) refl)
        (ends (is_space b)))
  where
    words :
        (p q : Bool)
        → (if p then w else (if q then w else w + 1)) + word_starts (not p) bs
          ≡ w
            + (if p
                then word_starts false bs
                else (if q then word_starts true bs else 1 + word_starts true bs))
    words true q = refl
    words false true = refl
    words false false = omega arith

    ends :
        (p : Bool)
        → ends_in_word (not p) bs ≡ (if p then ends_in_word false bs else ends_in_word true bs)
    ends true = refl
    ends false = refl

tally-append : (p : ℕ → Bool) (xs ys : List ℕ) → tally p (xs ++ ys) ≡ tally p xs + tally p ys
unfolding tally
tally-append p [] ys = omega arith
tally-append p (x ∷ xs) ys = ground (arith, tally-append p xs ys)

word_starts-append :
    (i : Bool) (xs ys : List ℕ)
    → word_starts i (xs ++ ys) ≡ word_starts i xs + word_starts (ends_in_word i xs) ys
unfolding word_starts ends_in_word
word_starts-append i [] ys = omega arith
word_starts-append i (x ∷ xs) ys =
    ground (arith, word_starts-append false xs ys, word_starts-append true xs ys)

count_reads_step :
    (l w m y : ℕ) (i : Bool) (c : List ℕ) (reads : List (Option (List ℕ)))
    → 1 ≤ length c
    → ◌≡◌ {A = ℕ × Counts} (count_reads (wrapped_counts l w m y, i) (some c ∷ reads)) (
        count_reads
          (
            wrapped_counts
                (l + tally is_newline c)
                (w + word_starts i c)
                (m + tally is_start c)
                (y + length c),
            ends_in_word i c,
          )
          reads)
unfolding count_reads
count_reads_step l w m y i [] reads h = absurd (omega (arith, h))
count_reads_step l w m y i (b ∷ bs) reads h =
    ap (λ s. count_reads s reads)
      (ap (λ c. count_bytes (c, i) (b ∷ bs)) (same_bytes (length (b ∷ bs)))
        ∙ count_bytes_lem l w m (y + length (b ∷ bs)) i (b ∷ bs))
  where
    same_bytes :
        (n : ℕ)
        → record (wrapped_counts l w m y) { bytes = (y % word + n) % word }
          ≡ wrapped_counts l w m (y + n)
    same_bytes n =
        let e : (y % word + n) % word ≡ (y + n) % word = omega arith in
        ap (λ k. record (wrapped_counts l w m y) { bytes = k }) e

same_end : {c c' : Counts} → c ≡ c' → ◌≡◌ {A = ℕ × Counts} (0, c) (0, c')
same_end e = rw e refl

count_reads_lem :
    (chunks : List (List ℕ)) (l w m y : ℕ) (i : Bool)
    → All (λ c. 1 ≤ length c) chunks
    → ◌≡◌ {A = ℕ × Counts} (count_reads (wrapped_counts l w m y, i) (map some chunks)) (
      0,
      wrapped_counts
          (l + tally is_newline (flatten chunks))
          (w + word_starts i (flatten chunks))
          (m + tally is_start (flatten chunks))
          (y + length (flatten chunks)),
    )
unfolding tally flatten
count_reads_lem [] l w m y i h =
    unfold count_reads word_starts in
    same_end (same_counts (omega arith) (omega arith) (omega arith) (omega arith))
count_reads_lem (c ∷ cs) l w m y i h =
    count_reads_step l w m y i c (map some cs) h.0
    ∙ count_reads_lem cs _ _ _ _ (ends_in_word i c) h.1
    ∙ same_end (
        same_counts (omega (arith, tally-append is_newline c (flatten cs)))
          (omega (arith, word_starts-append i c (flatten cs)))
          (omega (arith, tally-append is_start c (flatten cs)))
          (omega (arith, length-append c (flatten cs))))

-- The counts do not depend on how reads cut the text, where none of them is empty: the newlines, the
-- words, the bytes that start a codepoint and the bytes of the whole text, each modulo `2 ^ 64`.
pub count_fd_lem :
    (chunks : List (List ℕ))
    → All (λ c. 1 ≤ length c) chunks
    → ◌≡◌ {A = ℕ × Counts} (count_fd (map some chunks)) (
      0,
      wrapped_counts
          (tally is_newline (flatten chunks))
          (word_starts false (flatten chunks))
          (tally is_start (flatten chunks))
          (length (flatten chunks)),
    )
unfolding count_fd
count_fd_lem chunks h =
    count_reads_lem chunks 0 0 0 0 false h
    ∙ same_end (same_counts (omega arith) (omega arith) (omega arith) (omega arith))
