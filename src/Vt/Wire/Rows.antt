-- ===== src/Vt/Wire/Rows.antt =====
-- The cells, grids and arrays of vt_serialize and vt_deserialize (_lib/vt.c). `none` is an access
-- outside an array, or the return of -1 where the bytes end too early.
use u.Common.{
  ℕ, zero, suc, ◌+◌, ◌&&◌, Option, none, some, List, [], ◌∷◌, ◌==◌, leb, ltb, if◌then◌else◌, check,
  length, ◌>>=◌,
}
use u.Common.Buffer.{Buffer}
use u.Vt.Types.{Cell, Grid}
use u.Vt.Cells.{alloc_cells}
use u.Vt.Wire.{put_le, get_le}

-- The bytes of a `Cell` in memory.
unfoldable pub put_cell : Cell → List ℕ → List ℕ
put_cell c rest =
    put_le 4 c.ch (put_le 1 c.fg (put_le 1 c.bg (put_le 1 c.attrs (put_le 1 c.flags rest))))

unfoldable pub get_cell : List ℕ → Option (Cell × List ℕ)
get_cell r0 = do
  (ch', r1) ← get_le 4 r0
  (fg', r2) ← get_le 1 r1
  (bg', r3) ← get_le 1 r2
  (attrs', r4) ← get_le 1 r3
  (flags', r5) ← get_le 1 r4
  some (record { ch = ch'; fg = fg'; bg = bg'; attrs = attrs'; flags = flags' }, r5)

-- The elements `i`, `i + 1`, … of an array, `n` of them.
unfoldable pub elements {ℓ} : {A : Type ℓ} → (ℕ → A) → ℕ → ℕ → List A
elements f i zero = []
elements f i (suc n) = f i ∷ elements f (i + 1) n

-- Element `i` of a list, or a default past its end.
unfoldable pub get_or {ℓ} : {A : Type ℓ} → List A → ℕ → A → A
get_or [] i d = d
get_or (x ∷ xs) zero d = x
get_or (x ∷ xs) (suc i) d = get_or xs i d

unfoldable pub put_cells : List Cell → List ℕ → List ℕ
put_cells [] rest = rest
put_cells (c ∷ cs) rest = put_cell c (put_cells cs rest)

unfoldable pub get_cells : ℕ → List ℕ → Option (List Cell × List ℕ)
get_cells zero bytes = some ([], bytes)
get_cells (suc n) bytes = do
  (c, rest) ← get_cell bytes
  (cs, rest') ← get_cells n rest
  some (c ∷ cs, rest')

-- The rows from `r` on, `n` of them, of `cols` cells.
unfoldable pub put_rows : Grid → ℕ → ℕ → ℕ → List ℕ → List ℕ
put_rows g cols r zero rest = rest
put_rows g cols r (suc n) rest =
    put_cells (elements (g.at r) 0 cols) (put_rows g cols (r + 1) n rest)

unfoldable pub put_grid : Grid → ℕ → ℕ → List ℕ → Option (List ℕ)
put_grid g rows cols rest =
    check (leb rows g.height && leb cols g.width) (put_rows g cols 0 rows rest)

-- A row that is read over row `r`.
unfoldable pub fill_row : Grid → ℕ → List Cell → Option Grid
fill_row g r cs = check (ltb r g.height && leb (length cs) g.width) (record g {
  at = λ i j. if i == r && ltb j (length cs) then get_or cs j (g.at i j) else g.at i j;
})

unfoldable pub get_rows : ℕ → ℕ → ℕ → Grid → List ℕ → Option (Grid × List ℕ)
get_rows cols r zero g bytes = some (g, bytes)
get_rows cols r (suc n) g bytes = do
  (cs, rest) ← get_cells cols bytes
  g' ← fill_row g r cs
  get_rows cols (r + 1) n g' rest

unfoldable pub put_alt : Option Grid → ℕ → ℕ → List ℕ → Option (List ℕ)
put_alt none rows cols rest = some (put_le 1 0 rest)
put_alt (some g) rows cols rest = do bytes ← put_grid g rows cols rest; some (put_le 1 1 bytes)

-- `if (!s->alt_cells) s->alt_cells = alloc_cells(...)`
abbrev pub alt_or_new : Option Grid → ℕ → ℕ → Grid
alt_or_new none rows cols = alloc_cells rows cols
alt_or_new (some g) rows cols = g

unfoldable pub get_alt : ℕ → Option Grid → ℕ → ℕ → List ℕ → Option (Option Grid × List ℕ)
get_alt has_alt old rows cols bytes =
    if has_alt == 0
    then some (old, bytes)
    else (do (g, rest) ← get_rows cols 0 rows (alt_or_new old rows cols) bytes; some (some g, rest))

-- The first `n` elements of an array.
unfoldable pub array_of : Buffer ℕ → ℕ → Option (List ℕ)
array_of b n = check (leb n b.size) (elements b.at 0 n)

-- `memcpy` over the start of an array.
unfoldable pub copy_in : Buffer ℕ → List ℕ → Option (Buffer ℕ)
copy_in b vs =
    check (leb (length vs) b.size)
      (record b { at = λ i. if ltb i (length vs) then get_or vs i (b.at i) else b.at i })

-- A C string in an array of `n` bytes, and the C string that such an array holds.
unfoldable pub padded : ℕ → List ℕ → List ℕ
padded zero t = []
padded (suc n) [] = 0 ∷ padded n []
padded (suc n) (c ∷ cs) = c ∷ padded n cs

unfoldable pub until_nul : List ℕ → List ℕ
until_nul [] = []
until_nul (c ∷ cs) = if c == 0 then [] else c ∷ until_nul cs
