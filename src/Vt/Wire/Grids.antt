-- ===== src/Vt/Wire/Grids.antt =====
-- Arrays and grids that are put on the wire are read back (_lib/vt.c, vt_serialize, vt_deserialize).
use u.Common.{
  ℕ, zero, suc, ◌+◌, ◌≤◌, ◌<◌, ◌≡◌, refl, ap, ◌∙◌, some, List, [], ◌∷◌, arith, All, length, ◌≢◌,
  Safe, Safe-check, Safe-some,
}
use u.Common.Buffer.{Buffer}
use u.Vt.Types.{Cell, Grid}
use u.Vt.Cells.Bounds.{SameSize, SameSize-refl}
use u.Vt.Wire.Numbers.{Fits, get_le_step, get_le-put_le}
use u.Vt.Wire.Rows.{
  put_cell, get_cell, elements, get_or, put_cells, get_cells, put_rows, fill_row, get_rows, copy_in,
  padded, until_nul,
}

module _ {ℓ} {A : Type ℓ} where
  pub length-elements : (f : ℕ → A) (i n : ℕ) → length (elements f i n) ≡ n
  unfolding elements
  length-elements f i zero = refl
  length-elements f i (suc n) = ap suc (length-elements f (i + 1) n)

  pub get_or-elements :
      (f : ℕ → A) (i n j : ℕ) (d : A) → j < n → get_or (elements f i n) j d ≡ f (i + j)
  unfolding elements get_or
  get_or-elements f i zero j d h = absurd (omega arith)
  get_or-elements f i (suc n) zero d h = ap f (omega arith)
  get_or-elements f i (suc n) (suc j) d h =
      get_or-elements f (i + 1) n j d (omega arith) ∙ ap f (omega arith)

  pub All-elements :
      (P : A → Type 0) (f : ℕ → A) (i n : ℕ)
      → ((j : ℕ) → i ≤ j → j < i + n → P (f j))
      → All P (elements f i n)
  unfolding elements
  All-elements P f i zero h = tt
  All-elements P f i (suc n) h = (
    h i (omega arith) (omega arith),
    All-elements P f (i + 1) n λ j a b. h j (omega arith) (omega arith),
  )

pub record CellFits (c : Cell) : Type 0 where
  pub ch : Fits 4 c.ch
  pub fg : Fits 1 c.fg
  pub bg : Fits 1 c.bg
  pub attrs : Fits 1 c.attrs
  pub flags : Fits 1 c.flags

get_cell-put_cell :
    (c : Cell) (rest : List ℕ) → CellFits c → get_cell (put_cell c rest) ≡ some (c, rest)
unfolding get_cell put_cell
get_cell-put_cell c rest h = get_le_step _ (get_le-put_le 4 c.ch _ h.ch) (
    get_le_step _ (get_le-put_le 1 c.fg _ h.fg) (
      get_le_step _ (get_le-put_le 1 c.bg _ h.bg) (
        get_le_step _ (get_le-put_le 1 c.attrs _ h.attrs)
          (get_le_step _ (get_le-put_le 1 c.flags _ h.flags) refl))))

get_cells-put_cells :
    (cs : List Cell) (rest : List ℕ)
    → All CellFits cs
    → get_cells (length cs) (put_cells cs rest) ≡ some (cs, rest)
unfolding get_cells put_cells
get_cells-put_cells [] rest h = refl
get_cells-put_cells (c ∷ cs) rest h =
    get_le_step _ (get_cell-put_cell c _ h.0) (get_le_step _ (get_cells-put_cells cs rest h.1) refl)

-- The rows from `r` on, `n` of them, are those of `g`; the others are those of `old`.
pub record RowsRead (g old new : Grid) (cols r n : ℕ) : Type 0 where
  pub size : SameSize old new
  pub before : (i j : ℕ) → i < r → new.at i j ≡ old.at i j
  pub taken : (i j : ℕ) → r ≤ i → i < r + n → j < cols → new.at i j ≡ g.at i j

-- The cells of `g` that are put have their width in memory.
abbrev pub GridFits : Grid → ℕ → ℕ → Type 0
GridFits g rows cols = (i j : ℕ) → i < rows → j < cols → CellFits (g.at i j)

row_read :
    (f : ℕ → Cell) (cols : ℕ) (rest : List ℕ)
    → ((j : ℕ) → j < cols → CellFits (f j))
    → get_cells cols (put_cells (elements f 0 cols) rest) ≡ some (elements f 0 cols, rest)
row_read f cols rest h = rw (length-elements f 0 cols) at (
    get_cells-put_cells (elements f 0 cols) rest
      (All-elements CellFits f 0 cols λ j _ b. h j (omega arith)))

fill_row-elements :
    (g old : Grid) (cols r : ℕ)
    → r < old.height
    → cols ≤ old.width
    → Safe (λ new. RowsRead g old new cols r 1) (fill_row old r (elements (g.at r) 0 cols))
unfolding fill_row
fill_row-elements g old cols r h k =
    let e = length-elements (g.at r) 0 cols in
    Safe-check _ _ (ground (arith, e)) (record {
      size = omega arith;
      before = λ i j a. ground arith;
      taken = λ i j a b c. ground (arith, e, get_or-elements (g.at r) 0 cols j (old.at i j) c);
    })

RowsRead-trans :
    {g old mid new : Grid} {cols r n : ℕ}
    → RowsRead g old mid cols r 1
    → RowsRead g mid new cols (r + 1) n
    → RowsRead g old new cols r (suc n)
RowsRead-trans {g} {old} {mid} {new} {cols} {r} {n} u v = record {
  size = omega (arith, u.size, v.size);
  before = λ i j a. v.before i j (omega arith) ∙ u.before i j a;
  taken = λ i j a b c. ground (arith, v.before i j, u.taken i j, v.taken i j);
}

pub get_rows-put_rows :
    (g : Grid) (cols r n : ℕ) (old : Grid) (rest : List ℕ)
    → r + n ≤ old.height
    → cols ≤ old.width
    → GridFits g (r + n) cols
    → (new : Grid) × (get_rows cols r n old (put_rows g cols r n rest) ≡ some (new, rest))
      × RowsRead g old new cols r n
unfolding get_rows put_rows
get_rows-put_rows g cols r zero old rest h k f = (
  old,
  refl,
  record {
    size = SameSize-refl old;
    before = λ i j a. refl;
    taken = λ i j a b c. absurd (omega arith);
  },
)
get_rows-put_rows g cols r (suc n) old rest h k f =
    let (mid, e, u) = Safe-some (fill_row-elements g old cols r (omega arith) k) in
    let (new, e', v) =
      get_rows-put_rows g cols (r + 1) n mid rest (omega (arith, u.size)) (omega (arith, u.size))
        λ i j a b. f i j (omega arith) b in
    (
      new,
      get_le_step _
          (row_read (g.at r) cols (put_rows g cols (r + 1) n rest) λ j b. f r j (omega arith) b)
          (get_le_step _ e e'),
      RowsRead-trans u v,
    )

-- An array that is put and copied into one of at least its size.
pub record Copied (f : ℕ → ℕ) (old new : Buffer ℕ) (n : ℕ) : Type 0 where
  pub size_eq : new.size ≡ old.size
  pub taken : (i : ℕ) → i < n → new.at i ≡ f i

pub copy_in-elements :
    (b : Buffer ℕ) (f : ℕ → ℕ) (n : ℕ)
    → n ≤ b.size
    → Safe (λ new. Copied f b new n) (copy_in b (elements f 0 n))
unfolding copy_in
copy_in-elements b f n h =
    let e = length-elements f 0 n in
    Safe-check _ _ (ground (arith, e)) (record {
      size_eq = refl;
      taken = λ i a. ground (arith, e, get_or-elements f 0 n i (b.at i) a);
    })

pub until_nul-padded :
    (n : ℕ) (t : List ℕ) → length t ≤ n → All (λ c. c ≢ 0) t → until_nul (padded n t) ≡ t
unfolding until_nul padded
until_nul-padded zero [] h k = refl
until_nul-padded zero (c ∷ cs) h k = absurd (omega (arith, h))
until_nul-padded (suc n) [] h k = refl
until_nul-padded (suc n) (c ∷ cs) h k =
    ground (arith, k.0, ap (◌∷◌ c) (until_nul-padded n cs (omega (arith, h)) k.1))

pub padded-Fits :
    (n : ℕ) (t : List ℕ) → All (Fits 1) t → (length (padded n t) ≡ n) × All (Fits 1) (padded n t)
unfolding padded
padded-Fits zero t h = (refl, tt)
padded-Fits (suc n) [] h = let u = padded-Fits n [] tt in (ap suc u.0, (omega arith, u.1))
padded-Fits (suc n) (c ∷ cs) h = let u = padded-Fits n cs h.1 in (ap suc u.0, (h.0, u.1))
