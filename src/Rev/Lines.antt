-- ===== src/Rev/Lines.antt =====
-- rev/rev.c reverses every line, and leaves the newlines.
use native.Mathlib.Decide.{dec_lt}
use u.Common.{
  ℕ, zero, suc, ◌+◌, ◌-◌, ◌≤◌, ◌<◌, ◌≡◌, ◌≢◌, refl, ◌∙◌, ltb, if◌then◌else◌, ◌⊎◌, inl, inr, arith,
  Safe, safe, Safe-bind, Safe-if, Safe-mono,
}
use u.Common.Buffer.{Buffer}
use u.Rev.{reverse_lines, rev}
use u.Rev.Flip.{IsFlipped, line_end-Safe, reverse-IsFlipped}

-- The bytes from `s` to before `e` are one line of the first `used`.
pub record IsLine (p : Buffer ℕ) (used s e : ℕ) : Type 0 where
  pub order : s ≤ e
  pub inside : e ≤ used
  pub starts : (s ≡ 0) ⊎ ((1 ≤ s) × (p.at (s - 1) ≡ b'\n'))
  pub ends : (e ≡ used) ⊎ (p.at e ≡ b'\n')
  pub whole : (k : ℕ) → s ≤ k → k < e → p.at k ≢ b'\n'

-- `d` is `p` with every line from `start` on reversed; all else is kept.
pub record IsReversed (p : Buffer ℕ) (used start : ℕ) (d : Buffer ℕ) : Type 0 where
  pub size_eq : d.size ≡ p.size
  pub lines :
      (s e k : ℕ) → start ≤ s → IsLine p used s e → s ≤ k → k < e → d.at k ≡ p.at (s + e - 1 - k)
  pub newlines : (k : ℕ) → start ≤ k → k < used → p.at k ≡ b'\n' → d.at k ≡ b'\n'
  pub before : (k : ℕ) → k < start → d.at k ≡ p.at k
  pub after : (k : ℕ) → used ≤ k → d.at k ≡ p.at k

abbrev next_line : ℕ → ℕ → ℕ
next_line e used = if ltb e used then e + 1 else used

-- Two lines that start at one place end at one place.
IsLine-end : (p : Buffer ℕ) (used s e e' : ℕ) → IsLine p used s e → IsLine p used s e' → e ≡ e'
IsLine-end p used s e e' h k = elim (dec_lt e e') [
  | yes a ↦ ground (arith, h.ends, h.inside, k.inside, k.whole e, h.order)
  | no a ↦ ground (arith, k.ends, h.inside, k.inside, h.whole e', k.order)
]

-- A line that starts behind the start of another one starts behind its end.
IsLine-later :
    (p : Buffer ℕ) (used start e s e' : ℕ)
    → IsLine p used start e
    → IsLine p used s e'
    → start < s
    → e < s
IsLine-later p used start e s e' h k l = elim (dec_lt e s) [
  | yes a ↦ a
  | no a ↦ absurd (ground (arith, k.starts, h.whole (s - 1)))
]

IsLine-flipped :
    (p d : Buffer ℕ) (used start e s e' : ℕ)
    → IsFlipped p start e d
    → e < s
    → IsLine p used s e'
    → IsLine d used s e'
IsLine-flipped p d used start e s e' f l h = record {
  order = h.order;
  inside = h.inside;
  starts = ground (arith, h.starts, f.outer (s - 1));
  ends = ground (arith, h.ends, h.order, f.outer e');
  whole = λ k q w. ground (arith, h.whole k, f.outer k);
}

IsReversed-line :
    (p p' d : Buffer ℕ) (used start e : ℕ)
    → IsLine p used start e
    → IsFlipped p start e p'
    → IsReversed p' used (next_line e used) d
    → IsReversed p used start d
IsReversed-line p p' d used start e h f t = record {
  size_eq = t.size_eq ∙ f.size_eq;
  lines = λ s e' k a l q w. elim (dec_lt start s) [
    | yes b ↦
        let past = IsLine-later p used start e s e' h l b in
        let there =
          t.lines s e' k (ground arith) (IsLine-flipped p p' used start e s e' f past l) q w in
        there ∙ f.outer (s + e' - 1 - k) (inr (omega arith))
    | no b ↦
        let same : s ≡ start = omega arith in
        let stop : e ≡ e' = IsLine-end p used start e e' h (rw same at l) in
        let flipped = f.inner k (omega arith) (omega arith) in
        let kept = t.before k (ground (arith, h.inside)) in rw (same, ← stop) (kept ∙ flipped)
  ];
  newlines = λ k a q w. ground (arith, h.whole k, h.inside, f.outer k, t.before k, t.newlines k);
  before = λ k q. ground (arith, h.order, h.inside, f.outer k, t.before k);
  after = λ k q. ground (arith, h.inside, f.outer k, t.after k);
}

-- Where a line starts, unless the input is at its end.
abbrev StartsAt : Buffer ℕ → ℕ → ℕ → Type 0
StartsAt p used start = start < used → (start ≡ 0) ⊎ ((1 ≤ start) × (p.at (start - 1) ≡ b'\n'))

StartsAt-next :
    (p p' : Buffer ℕ) (used start e : ℕ)
    → IsLine p used start e
    → IsFlipped p start e p'
    → StartsAt p' used (next_line e used)
StartsAt-next p p' used start e h f w = elim (dec_lt e used) [
  | yes a ↦
      let nl : p.at e ≡ b'\n' = ground (arith, h.ends) in
      let kept = f.outer e (inr (omega arith)) in
      let next : next_line e used ≡ e + 1 = ground arith in
      let back : e + 1 - 1 ≡ e = omega arith in rw (next, back) (inr (omega arith, kept ∙ nl))
  | no a ↦ absurd (ground arith)
]

IsReversed-end : (p : Buffer ℕ) (used start : ℕ) → used ≤ start → IsReversed p used start p
IsReversed-end p used start h = record {
  size_eq = refl;
  lines = λ s e k a l q w. absurd (omega (arith, l.inside));
  newlines = λ k a q w. w;
  before = λ k q. refl;
  after = λ k q. refl;
}

reverse_lines-IsReversed :
    (fuel : ℕ) (p : Buffer ℕ) (used start : ℕ)
    → used ≤ start + fuel
    → used ≤ p.size
    → StartsAt p used start
    → Safe (IsReversed p used start) (reverse_lines fuel p used start)
unfolding reverse_lines
reverse_lines-IsReversed zero p used start h l v =
    Safe-if (ltb start used) (λ d. absurd (ground arith))
      (λ d. safe (IsReversed-end p used start (ground arith)))
reverse_lines-IsReversed (suc fuel) p used start h l v =
    Safe-if (ltb start used)
      (λ d.
        let inside : start < used = ground arith in
        Safe-bind (line_end-Safe (used - start) p start (omega arith) l) λ e t.
          let (lo, hi, stops, whole) = t in
          let line : IsLine p used start e = record {
            order = lo;
            inside = hi;
            starts = v inside;
            ends = stops;
            whole = whole;
          } in
          Safe-bind (reverse-IsFlipped (e - start) p start e (omega arith) (omega arith)) λ p' f.
            Safe-mono
              (reverse_lines-IsReversed fuel p' used (next_line e used) (ground arith)
                (omega (arith, f.size_eq)) (StartsAt-next p p' used start e line f))
              λ r u. IsReversed-line p p' r used start e line f u)
      (λ d. safe (IsReversed-end p used start (ground arith)))

-- On any input, whose bytes are in the array, rev ends, makes no access outside the array, and leaves
-- each line with its bytes in the opposite order, each newline in its place, and no byte past the
-- input changed.
pub rev-IsReversed :
    (p : Buffer ℕ) (used : ℕ) → used ≤ p.size → Safe (IsReversed p used 0) (rev p used)
unfolding rev
rev-IsReversed p used h = reverse_lines-IsReversed used p used 0 (omega arith) h (λ w. inl refl)
