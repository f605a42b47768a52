-- ===== src/Sort/Rearrange.antt =====
-- The heapsort of sort/sort.c ends, stays inside the lines, and only rearranges them.
use u.Common.{
  ℕ, zero, suc, ◌+◌, ◌-◌, ◌*◌, ◌/◌, ◌≤◌, ◌<◌, ◌≡◌, refl, ◌∙◌, Bool, true, false, List, ◌==◌, ltb,
  leb, ltb→lt, lt→ltb, ◌⊎◌, inr, if◌then◌else◌, arith, Safe, safe, Safe-bind, Safe-mono, Safe-if,
  Safe-check,
}
use u.Common.Buffer.{Buffer, write, read-Safe}
use u.Sort.{Options, compare_lines}
use u.Sort.Heap.{is_less, pick_child, swap, sift, build, extract, sort_lines}

abbrev one_if : Bool → ℕ
one_if true = 1
one_if false = 0

-- How many of the first `n` lines satisfy `p`.
abbrev pub count_in : (List ℕ → Bool) → ℕ → (ℕ → List ℕ) → ℕ
count_in p zero f = 0
count_in p (suc n) f = count_in p n f + one_if (p (f n))

abbrev put : (ℕ → List ℕ) → ℕ → List ℕ → ℕ → List ℕ
put f i v j = if j == i then v else f j

count_in-put_past :
    (p : List ℕ → Bool) (n : ℕ) (f : ℕ → List ℕ) (i : ℕ) (v : List ℕ)
    → n ≤ i
    → count_in p n (put f i v) ≡ count_in p n f
count_in-put_past p zero f i v h = refl
count_in-put_past p (suc n) f i v h = ground (arith, count_in-put_past p n f i v)

count_in-put :
    (p : List ℕ → Bool) (n : ℕ) (f : ℕ → List ℕ) (i : ℕ) (v : List ℕ)
    → i < n
    → count_in p n (put f i v) + one_if (p (f i)) ≡ count_in p n f + one_if (p v)
count_in-put p zero f i v h = ground arith
count_in-put p (suc n) f i v h = ground (arith, count_in-put p n f i v, count_in-put_past p n f i v)

-- The same lines, in an order that may differ: as many of them satisfy any test.
pub record Rearranged (b b' : Buffer (List ℕ)) : Type 0 where
  pub size_eq : b'.size ≡ b.size
  pub counts : (p : List ℕ → Bool) → count_in p b.size b'.at ≡ count_in p b.size b.at

Rearranged-trans : {a b c : Buffer (List ℕ)} → Rearranged a b → Rearranged b c → Rearranged a c
Rearranged-trans {a} {b} {c} r t = record {
  size_eq = t.size_eq ∙ r.size_eq;
  counts = λ p. rw (← r.size_eq) (t.counts p) ∙ r.counts p;
}

write_lem :
    (b : Buffer (List ℕ)) (i : ℕ) (v : List ℕ)
    → i < b.size
    → Safe (λ c. c ≡ record b { at = put b.at i v }) (write b i v)
unfolding write
write_lem b i v h = Safe-check _ _ (lt→ltb i b.size h) refl

-- The buffer with the lines at `i` and `j` exchanged.
abbrev pub exchanged : Buffer (List ℕ) → ℕ → ℕ → Buffer (List ℕ)
exchanged b i j = record b { at = put (put b.at i (b.at j)) j (b.at i) }

pub swap-exchanged :
    (b : Buffer (List ℕ)) (i j : ℕ)
    → i < j
    → j < b.size
    → Safe (λ d. d ≡ exchanged b i j) (swap b i j)
unfolding swap
swap-exchanged b i j h k = Safe-bind (read-Safe b i (omega arith)) λ x e.
    Safe-bind (read-Safe b j k) λ y e'.
      Safe-bind (write_lem b i y (omega arith))
        λ c w. Safe-mono (write_lem c j x (rw w k)) λ d w'. rw (w', w, e, e') refl

exchanged-Rearranged :
    (b : Buffer (List ℕ)) (i j : ℕ) → i < j → j < b.size → Rearranged b (exchanged b i j)
exchanged-Rearranged b i j h k = record {
  size_eq = refl;
  counts = λ p. ground (
    arith,
    count_in-put p b.size b.at i (b.at j) (omega arith),
    count_in-put p b.size (put b.at i (b.at j)) j (b.at i) k,
  );
}

swap-Rearranged :
    (b : Buffer (List ℕ)) (i j : ℕ) → i < j → j < b.size → Safe (Rearranged b) (swap b i j)
swap-Rearranged b i j h k =
    Safe-mono (swap-exchanged b i j h k) λ d e. rw e (exchanged-Rearranged b i j h k)

pick_child-Safe :
    (o : Options) (b : Buffer (List ℕ)) (n child : ℕ)
    → child < n
    → n ≤ b.size
    → Safe (λ c. (child ≤ c) × (c < n)) (pick_child o b n child)
unfolding pick_child
pick_child-Safe o b n child h k =
    Safe-if (ltb (child + 1) n)
      (λ e. Safe-bind (read-Safe b child (omega arith)) λ x _.
        Safe-bind (read-Safe b (child + 1) (omega (arith, ltb→lt (child + 1) n e)))
          λ y _. safe (ground (arith, ltb→lt (child + 1) n e)))
      (λ _. safe (omega arith))

Rearranged-refl : (b : Buffer (List ℕ)) → Rearranged b b
Rearranged-refl b = record { size_eq = refl; counts = λ p. refl }

-- More rounds than nodes after `r` are enough.
sift-Rearranged :
    (fuel : ℕ) (o : Options) (n r : ℕ) (b : Buffer (List ℕ))
    → n ≤ b.size
    → n < fuel + r
    → r < n
    → Safe (Rearranged b) (sift fuel o n r b)
unfolding sift
sift-Rearranged zero o n r b h k l = absurd (omega arith)
sift-Rearranged (suc fuel) o n r b h k l =
    Safe-if (leb n (r * 2 + 1)) (λ _. safe (Rearranged-refl b))
      (λ e. Safe-bind (pick_child-Safe o b n (r * 2 + 1) (ground arith) h) λ child w.
        Safe-bind (read-Safe b r (omega arith)) λ x _.
          Safe-bind (read-Safe b child (omega arith)) λ y _.
            Safe-if (is_less (compare_lines o x y))
              (λ _. Safe-bind (swap-Rearranged b r child (omega arith) (omega arith)) λ b' t.
                Safe-mono
                  (sift-Rearranged fuel o n child b' (omega (arith, t.size_eq)) (omega arith) w.1)
                  λ d u. Rearranged-trans t u)
              (λ _. safe (Rearranged-refl b)))

build-Rearranged :
    (o : Options) (n root : ℕ) (b : Buffer (List ℕ))
    → n ≤ b.size
    → root ≤ n
    → Safe (Rearranged b) (build o n root b)
unfolding build
build-Rearranged o n zero b h k = safe (Rearranged-refl b)
build-Rearranged o n (suc r) b h k =
    Safe-bind (sift-Rearranged (n + 1) o n r b h (omega arith) (omega arith)) λ b' t.
      Safe-mono (build-Rearranged o n r b' (omega (arith, t.size_eq)) (omega arith))
        λ d u. Rearranged-trans t u

extract-Rearranged :
    (o : Options) (end : ℕ) (b : Buffer (List ℕ))
    → (end ≡ 0) ⊎ (end < b.size)
    → Safe (Rearranged b) (extract o end b)
unfolding extract
extract-Rearranged o zero b h = safe (Rearranged-refl b)
extract-Rearranged o (suc end) b h =
    Safe-bind (swap-Rearranged b 0 (suc end) (omega arith) (ground arith)) λ b' t.
      Safe-bind
        (sift-Rearranged (suc end + 1) o (suc end) 0 b' (ground (arith, t.size_eq)) (omega arith)
          (omega arith))
        λ c u.
          Safe-mono (extract-Rearranged o end c (inr (ground (arith, t.size_eq, u.size_eq))))
            λ d w. Rearranged-trans (Rearranged-trans t u) w

-- Sorting all the lines of an array ends, makes no access outside the array, and leaves the same
-- lines in it, whatever the options: the fuel of the loops is enough.
pub sort_lines-Rearranged :
    (o : Options) (lines : Buffer (List ℕ))
    → Safe (Rearranged lines) (sort_lines o lines.size lines)
unfolding sort_lines
sort_lines-Rearranged o lines =
    Safe-bind (build-Rearranged o lines.size (lines.size / 2) lines (omega arith) (omega arith))
      λ heap t.
        Safe-mono (extract-Rearranged o (lines.size - 1) heap (ground (arith, t.size_eq)))
          λ d u. Rearranged-trans t u
