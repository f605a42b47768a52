-- ===== src/Vt/Wire/Reread.antt =====
-- The grids of a terminal, read back over fresh ones (_lib/vt.c, vt_deserialize).
use u.Common.{ℕ, ◌<◌, ◌≡◌, refl, Option, none, some, List, arith, ◌>>=◌, Safe, safe}
use u.Vt.Types.{Grid}
use u.Vt.Cells.{alloc_cells}
use u.Vt.Wire.{get_le}
use u.Vt.Wire.Numbers.{get_le_step, get_le-put_le}
use u.Vt.Wire.Grids.{GridFits, get_rows-put_rows}
use u.Vt.Wire.Represent.{AltGridFits}
use u.Vt.Wire.Rows.{put_rows, put_grid, get_rows, put_alt, get_alt}

-- A grid of the size of the screen with the cells of `g`.
pub record GridRead (g new : Grid) (rows cols : ℕ) : Type 0 where
  pub height_eq : new.height ≡ rows
  pub width_eq : new.width ≡ cols
  pub taken : (i j : ℕ) → i < rows → j < cols → new.at i j ≡ g.at i j

abbrev pub AltRead : Option Grid → Option Grid → ℕ → ℕ → Type 0
AltRead none none rows cols = Unit
AltRead (some g) (some g') rows cols = GridRead g g' rows cols
AltRead _ _ rows cols = ⊥

pub put_grid-some :
    (g : Grid) (rows cols : ℕ) (rest : List ℕ)
    → g.height ≡ rows
    → g.width ≡ cols
    → put_grid g rows cols rest ≡ some (put_rows g cols 0 rows rest)
unfolding put_grid
put_grid-some g rows cols rest h k = ground arith

-- A grid is read over a fresh one.
pub grid_read :
    (g old : Grid) (rows cols : ℕ) (rest : List ℕ)
    → GridFits g rows cols
    → old.height ≡ rows
    → old.width ≡ cols
    → (new : Grid) × (get_rows cols 0 rows old (put_rows g cols 0 rows rest) ≡ some (new, rest))
      × GridRead g new rows cols
grid_read g old rows cols rest f h k =
    let (new, e, u) =
      get_rows-put_rows g cols 0 rows old rest (omega arith) (omega arith)
        (λ i j a b. f i j (omega arith) b) in
    (
      new,
      e,
      record {
        height_eq = omega (arith, u.size);
        width_eq = omega (arith, u.size);
        taken = λ i j a b. u.taken i j (omega arith) (omega arith) b;
      },
    )

pub fresh_size :
    (rows cols : ℕ)
    → ((alloc_cells rows cols).height ≡ rows) × ((alloc_cells rows cols).width ≡ cols)
unfolding alloc_cells
fresh_size rows cols = (refl, refl)

-- The flag and the alternate grid, read back.
pub record AltWire (old : Option Grid) (rows cols : ℕ) (rest bytes : List ℕ) : Type 0 where
  pub flag : ℕ
  pub after : List ℕ
  pub alt : Option Grid
  pub flag_read : get_le 1 bytes ≡ some (flag, after)
  pub grid_read_back : get_alt flag none rows cols after ≡ some (alt, rest)
  pub same : AltRead old alt rows cols

pub alt_read :
    (old : Option Grid) (rows cols : ℕ) (rest : List ℕ)
    → AltGridFits old rows cols
    → ((g : Grid) → old ≡ some g → (g.height ≡ rows) × (g.width ≡ cols))
    → Safe (AltWire old rows cols rest) (put_alt old rows cols rest)
unfolding put_alt get_alt
alt_read none rows cols rest f s = safe (record {
  flag = 0;
  after = rest;
  alt = none;
  flag_read = get_le-put_le 1 0 rest refl;
  grid_read_back = refl;
  same = tt;
})
alt_read (some g) rows cols rest f s =
    let (new, e, u) =
      grid_read g (alloc_cells rows cols) rows cols rest f (fresh_size rows cols).0
        (fresh_size rows cols).1 in
    rw (put_grid-some g rows cols rest (s g refl).0 (s g refl).1) (
      unfold ◌>>=◌ in
      safe (record {
        flag = 1;
        after = put_rows g cols 0 rows rest;
        alt = some new;
        flag_read = get_le-put_le 1 1 _ refl;
        grid_read_back = get_le_step _ e refl;
        same = u;
      }))
