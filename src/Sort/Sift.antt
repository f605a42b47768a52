-- ===== src/Sort/Sift.antt =====
-- The inner loop of sort_lines (sort/sort.c) and the order of the heap.
use u.Common.{
  ℕ, zero, suc, ◌+◌, ◌-◌, ◌*◌, ◌/◌, ◌≤◌, ◌<◌, ◌≡◌, ◌≢◌, refl, true, false, List, ◌⊎◌, inl, inr, ltb,
  leb, ltb→lt, Bool-cases, arith, Safe, safe, Safe-bind, Safe-mono, Safe-if,
}
use u.Common.Buffer.{Buffer, read-Safe}
use u.Sort.{Options, compare_lines}
use u.Sort.Heap.{is_less, pick_child, sift}
use u.Sort.Rearrange.{exchanged, swap-exchanged}
use u.Sort.Transitive.{compare_lines_trans, compare_lines_total, compare_lines_refl}

-- Line `a` is not before line `b`.
unfoldable pub NotBefore : Options → List ℕ → List ℕ → Type 0
NotBefore o a b = is_less (compare_lines o a b) ≡ false

pub NotBefore-trans :
    (o : Options) (a b c : List ℕ) → NotBefore o a b → NotBefore o b c → NotBefore o a c
unfolding NotBefore
NotBefore-trans o a b c = compare_lines_trans o a b c

pub NotBefore-refl : (o : Options) (a : List ℕ) → NotBefore o a a
unfolding NotBefore
NotBefore-refl o a = compare_lines_refl o a

NotBefore-of :
    (o : Options) (a b : List ℕ) → is_less (compare_lines o a b) ≡ false → NotBefore o a b
unfolding NotBefore
NotBefore-of o a b e = e

NotBefore-total :
    (o : Options) (a b : List ℕ) → is_less (compare_lines o a b) ≡ true → NotBefore o b a
unfolding NotBefore
NotBefore-total o a b e = compare_lines_total o a b e

abbrev pub parent : ℕ → ℕ
parent c = (c - 1) / 2

-- In a heap of `n` nodes, every node whose parent is at `lo` or later is not after its parent.
abbrev pub IsHeapFrom : Options → ℕ → ℕ → (ℕ → List ℕ) → Type 0
IsHeapFrom o lo n f = (c : ℕ) → 0 < c → c < n → lo ≤ parent c → NotBefore o (f (parent c)) (f c)

-- Only the edges below `r` may be out of order.
pub record SiftInv (o : Options) (lo n r : ℕ) (f : ℕ → List ℕ) : Type 0 where
  pub edges :
      (c : ℕ) → 0 < c → c < n → lo ≤ parent c → parent c ≢ r → NotBefore o (f (parent c)) (f c)
  pub bridged :
      (c : ℕ)
      → 0 < c
      → c < n
      → parent c ≡ r
      → 0 < r
      → lo ≤ parent r
      → NotBefore o (f (parent r)) (f c)

-- `m` is a child of `r` that is not before any other.
record IsGreatestChild (o : Options) (n r : ℕ) (f : ℕ → List ℕ) (m : ℕ) : Type 0 where
  inside : m < n
  child : (m ≡ r * 2 + 1) ⊎ (m ≡ r * 2 + 1 + 1)
  greatest : (c : ℕ) → 0 < c → c < n → parent c ≡ r → NotBefore o (f m) (f c)

-- A node has two children at most.
child_cases : (r c : ℕ) → 0 < c → parent c ≡ r → (c ≡ r * 2 + 1) ⊎ (c ≡ r * 2 + 1 + 1)
child_cases r c h e = ground arith

IsGreatestChild-of :
    (o : Options) (n r : ℕ) (f : ℕ → List ℕ) (m : ℕ)
    → m < n
    → (m ≡ r * 2 + 1) ⊎ (m ≡ r * 2 + 1 + 1)
    → (r * 2 + 1 < n → NotBefore o (f m) (f (r * 2 + 1)))
    → (r * 2 + 1 + 1 < n → NotBefore o (f m) (f (r * 2 + 1 + 1)))
    → IsGreatestChild o n r f m
IsGreatestChild-of o n r f m h k left right = record {
  inside = h;
  child = k;
  greatest = λ c p q e. elim (child_cases r c p e) [
    | inl d ↦ rw d (left (omega arith))
    | inr d ↦ rw d (right (omega arith))
  ];
}

pick_child-IsGreatestChild :
    (o : Options) (b : Buffer (List ℕ)) (n r : ℕ)
    → r * 2 + 1 < n
    → n ≤ b.size
    → Safe (IsGreatestChild o n r b.at) (pick_child o b n (r * 2 + 1))
unfolding pick_child NotBefore
pick_child-IsGreatestChild o b n r h k =
    Safe-if (ltb (r * 2 + 1 + 1) n)
      (λ e. Safe-bind (read-Safe b (r * 2 + 1) (omega arith)) λ x p.
        Safe-bind (read-Safe b (r * 2 + 1 + 1) (omega (arith, ltb→lt (r * 2 + 1 + 1) n e))) λ y q.
          safe (
            rw (p, q)
              (elim (Bool-cases
                (is_less (compare_lines o (b.at (r * 2 + 1)) (b.at (r * 2 + 1 + 1))))) [
                  | inl d ↦ rw d (
                      IsGreatestChild-of o n r b.at (r * 2 + 1 + 1) (ground arith) (omega arith)
                        (λ _. compare_lines_total o (b.at (r * 2 + 1)) (b.at (r * 2 + 1 + 1)) d)
                        (λ _. NotBefore-refl o (b.at (r * 2 + 1 + 1))))
                  | inr d ↦ rw d (
                      IsGreatestChild-of o n r b.at (r * 2 + 1) h (omega arith)
                        (λ _. NotBefore-refl o (b.at (r * 2 + 1))) (λ _. d))
                ])))
      (λ e. safe (
        IsGreatestChild-of o n r b.at (r * 2 + 1) h (omega arith)
          (λ _. NotBefore-refl o (b.at (r * 2 + 1))) (λ q. ground arith)))

exchanged-SiftInv :
    (o : Options) (lo n r : ℕ) (b : Buffer (List ℕ)) (m : ℕ)
    → SiftInv o lo n r b.at
    → IsGreatestChild o n r b.at m
    → NotBefore o (b.at m) (b.at r)
    → SiftInv o lo n m (exchanged b r m).at
exchanged-SiftInv o lo n r b m v g up = record {
  edges = λ c p q t u. ground (arith, v.edges c, v.bridged m, g.greatest c, up);
  bridged = λ c p q t u w. ground (arith, v.edges c);
}

-- `d` is a heap from `lo` on, has the lines of `b` past the heap, and no line in it that exceeds
-- those of `b`.
pub record IsSifted (o : Options) (lo n : ℕ) (b d : Buffer (List ℕ)) : Type 0 where
  pub size_eq : d.size ≡ b.size
  pub heap : IsHeapFrom o lo n d.at
  pub beyond : (k : ℕ) → n ≤ k → d.at k ≡ b.at k
  pub bounded :
      (v : List ℕ)
      → ((k : ℕ) → k < n → NotBefore o v (b.at k))
      → (k : ℕ) → k < n
      → NotBefore o v (d.at k)

settled :
    (o : Options) (lo n r : ℕ) (b : Buffer (List ℕ))
    → SiftInv o lo n r b.at
    → ((c : ℕ) → 0 < c → c < n → parent c ≡ r → NotBefore o (b.at r) (b.at c))
    → IsSifted o lo n b b
settled o lo n r b v h = record {
  size_eq = refl;
  heap = λ c p q t. ground (arith, v.edges c, h c);
  beyond = λ k p. refl;
  bounded = λ v h k p. h k p;
}

IsSifted-exchanged :
    (o : Options) (lo n r m : ℕ) (b d : Buffer (List ℕ))
    → r < m
    → m < n
    → IsSifted o lo n (exchanged b r m) d
    → IsSifted o lo n b d
IsSifted-exchanged o lo n r m b d h k s = record {
  size_eq = s.size_eq;
  heap = s.heap;
  beyond = λ i p. ground (arith, s.beyond i);
  bounded = λ v q i p. s.bounded v (λ j w. ground (arith, q j, q r, q m)) i p;
}

-- More rounds than nodes after `r` are enough.
pub sift-IsSifted :
    (fuel : ℕ) (o : Options) (lo n r : ℕ) (b : Buffer (List ℕ))
    → SiftInv o lo n r b.at
    → n ≤ b.size
    → n < fuel + r
    → r < n
    → Safe (IsSifted o lo n b) (sift fuel o n r b)
unfolding sift
sift-IsSifted zero o lo n r b v h k l = absurd (omega arith)
sift-IsSifted (suc fuel) o lo n r b v h k l =
    Safe-if (leb n (r * 2 + 1)) (λ e. safe (settled o lo n r b v (λ c p q t. ground arith)))
      (λ e. Safe-bind (pick_child-IsGreatestChild o b n r (ground arith) h) λ m g.
        Safe-bind (read-Safe b r (omega arith)) λ x p.
          Safe-bind (read-Safe b m (omega (arith, g.inside))) λ y q.
            rw (p, q)
              (Safe-if (is_less (compare_lines o (b.at r) (b.at m)))
                (λ less.
                  Safe-bind
                    (swap-exchanged b r m (omega (arith, g.child)) (omega (arith, g.inside)))
                    λ d w. rw w (
                      Safe-mono
                        (sift-IsSifted fuel o lo n m (exchanged b r m)
                          (exchanged-SiftInv o lo n r b m v g
                            (NotBefore-total o (b.at r) (b.at m) less))
                          h (omega (arith, g.child)) g.inside)
                        λ d' s.
                          IsSifted-exchanged o lo n r m b d' (omega (arith, g.child)) g.inside s))
                (λ settles. safe (
                  settled o lo n r b v (λ c z w t.
                    NotBefore-trans o (b.at r) (b.at m) (b.at c)
                      (NotBefore-of o (b.at r) (b.at m) settles) (g.greatest c z w t))))))
