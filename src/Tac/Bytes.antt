-- ===== src/Tac/Bytes.antt =====
-- Lines as bytes of the input, and what the array of lines shows (tac/tac.c).
use u.Common.{
  ℕ, zero, suc, ◌+◌, ◌-◌, ◌≤◌, ◌<◌, ◌≡◌, refl, ap, List, [], ◌∷◌, ◌++◌, ◌==◌, ltb, if◌then◌else◌,
  length, arith, Safe, safe, Safe-bind, Bool-cases, inl, inr,
}
use u.Common.Buffer.{Buffer, put, read-Safe}
use u.Tac.{LineSpan, line_bytes, write_back}

-- The bytes from `off` on.
unfoldable pub bytes : Buffer ℕ → ℕ → ℕ → List ℕ
bytes a off zero = []
bytes a off (suc n) = a.at off ∷ bytes a (off + 1) n

-- The lines of a text, each with its newline; `acc` is the line so far.
unfoldable pub lines_of : List ℕ → List ℕ → List (List ℕ)
lines_of acc [] = if ltb 0 (length acc) then acc ∷ [] else []
lines_of acc (c ∷ cs) =
    if c == b'\n' then (acc ++ c ∷ []) ∷ lines_of [] cs else lines_of (acc ++ c ∷ []) cs

-- The lines one after the other, the last one first.
unfoldable pub flip_lines : List (List ℕ) → List ℕ
flip_lines [] = []
flip_lines (l ∷ ls) = flip_lines ls ++ l

pub length-bytes : (a : Buffer ℕ) (off n : ℕ) → length (bytes a off n) ≡ n
unfolding bytes
length-bytes a off zero = refl
length-bytes a off (suc n) = omega (arith, length-bytes a (off + 1) n)

bytes-snoc : (a : Buffer ℕ) (off n : ℕ) → bytes a off n ++ a.at (off + n) ∷ [] ≡ bytes a off (suc n)
unfolding bytes
bytes-snoc a off zero = let e : off + 0 ≡ off = omega arith in rw e refl
bytes-snoc a off (suc n) =
    let e : off + suc n ≡ off + 1 + n = omega arith in
    rw e (ap (◌∷◌ (a.at off)) (bytes-snoc a (off + 1) n))

-- The line from `start` to before `i` grows by byte `i`.
pub bytes-grow :
    (a : Buffer ℕ) (start i : ℕ)
    → start ≤ i
    → bytes a start (i - start) ++ a.at i ∷ [] ≡ bytes a start (i + 1 - start)
bytes-grow a start i h =
    let e : start + (i - start) ≡ i = omega arith in
    let f : i + 1 - start ≡ suc (i - start) = omega arith in
    let g = bytes-snoc a start (i - start) in rw f (rw e at g)

pub no_bytes : (a : Buffer ℕ) (i : ℕ) → bytes a i (i - i) ≡ []
unfolding bytes
no_bytes a i = let e : i - i ≡ 0 = omega arith in rw e refl

line_bytes-bytes :
    (a : Buffer ℕ) (off len : ℕ)
    → off + len ≤ a.size
    → Safe (λ r. r ≡ bytes a off len) (line_bytes a off len)
unfolding line_bytes bytes
line_bytes-bytes a off zero h = safe refl
line_bytes-bytes a off (suc len) h = Safe-bind (read-Safe a off (omega arith)) λ c e.
    Safe-bind (line_bytes-bytes a (off + 1) len (omega arith)) λ rest f. safe (rw (e, f) refl)

-- The first `n` lines of the array, the last one first.
unfoldable pub shown : Buffer ℕ → Buffer LineSpan → ℕ → List ℕ
shown a lines zero = []
shown a lines (suc n) = bytes a (lines.at n).off (lines.at n).len ++ shown a lines n

-- The first `n` lines lie in the input.
abbrev pub Inside : Buffer ℕ → Buffer LineSpan → ℕ → Type 0
Inside a lines n = (j : ℕ) → j < n → (lines.at j).off + (lines.at j).len ≤ a.size

pub write_back-shown :
    (a : Buffer ℕ) (lines : Buffer LineSpan) (n : ℕ)
    → n ≤ lines.size
    → Inside a lines n
    → Safe (λ r. r ≡ shown a lines n) (write_back a lines n)
unfolding write_back shown
write_back-shown a lines zero h v = safe refl
write_back-shown a lines (suc n) h v = Safe-bind (read-Safe lines n (omega arith)) λ l e.
    Safe-bind (line_bytes-bytes a l.off l.len (rw e (v n (omega arith)))) λ b f.
      Safe-bind (write_back-shown a lines n (omega arith) (λ j k. v j (omega arith)))
        λ r g. safe (rw (f, g, e) refl)

shown-put :
    (a : Buffer ℕ) (lines : Buffer LineSpan) (m n : ℕ) (l : LineSpan)
    → n ≤ m
    → shown a (put lines m l) n ≡ shown a lines n
unfolding shown
shown-put a lines m zero l h = refl
shown-put a lines m (suc n) l h =
    let e : (put lines m l).at n ≡ lines.at n = ground arith in
    rw (e, shown-put a lines m n l (omega arith)) refl

pub shown-add :
    (a : Buffer ℕ) (lines : Buffer LineSpan) (n : ℕ) (l : LineSpan)
    → shown a (put lines n l) (n + 1) ≡ bytes a l.off l.len ++ shown a lines n
unfolding shown
shown-add a lines n l =
    let f : n + 1 ≡ suc n = omega arith in
    let e : (put lines n l).at n ≡ l = ground arith in
    rw (f, shown, e, shown-put a lines n n l (omega arith)) refl

pub Inside-put :
    (a : Buffer ℕ) (lines : Buffer LineSpan) (n : ℕ) (l : LineSpan)
    → Inside a lines n
    → l.off + l.len ≤ a.size
    → Inside a (put lines n l) (n + 1)
Inside-put a lines n l v h j k = elim (Bool-cases (j == n)) [
  | inl e ↦ rw e h
  | inr e ↦ rw e (v j (ground arith))
]
