-- ===== src/Tmux/Status/Row.antt =====
-- The row of the status line is filled, and with nothing but printable characters (tmux/status.c).
use u.Common.{
  ℕ, zero, suc, ◌+◌, ◌-◌, ◌≤◌, ◌<◌, ◌≡◌, refl, Option, List, [], ◌∷◌, ◌==◌, ltb, if◌then◌else◌,
  arith, Safe, safe, Safe-bind, Safe-if, Safe-mono, Bool-cases, inl, inr,
}
use u.Common.Buffer.{Buffer, put, write, write-put}
use u.Vt.Types.{Cell}
use u.Vt.Wire.Rows.{get_or}
use u.Tmux.Status.{
  Style, status_bar_color, Tab, Piece, status_layout, shown_byte, status_cell, status_put,
  put_pieces, blank_rest, status_cells,
}

-- A printable ASCII character, with no attribute and no flag.
pub record IsPlain (c : Cell) : Type 0 where
  pub low : 0x20 ≤ c.ch
  pub high : c.ch < 0x7f
  pub no_attrs : c.attrs ≡ 0
  pub no_flags : c.flags ≡ 0

-- The cells before column `x` are the ones asked for, and those from `cols` on are what they were.
record Filled (size : ℕ) (before target : ℕ → Cell) (cols x : ℕ) (row : Buffer Cell) : Type 0 where
  size_eq : row.size ≡ size
  inside : x ≤ cols
  done : (i : ℕ) → i < x → row.at i ≡ target i
  behind : (i : ℕ) → cols ≤ i → row.at i ≡ before i

Filled-put :
    (size : ℕ) (before target : ℕ → Cell) (cols x : ℕ) (row : Buffer Cell)
    → Filled size before target cols x row
    → x < cols
    → Filled size before target cols (x + 1) (put row x (target x))
Filled-put size before target cols x row f h = record {
  size_eq = f.size_eq;
  inside = omega arith;
  done = λ i k. elim (Bool-cases (i == x)) [
    | inl e ↦ let same : i ≡ x = ground arith in rw (e, same) refl
    | inr e ↦ rw e (f.done i (ground arith))
  ];
  behind = λ i k. elim (Bool-cases (i == x)) [
    | inl e ↦ absurd (ground arith)
    | inr e ↦ rw e (f.behind i k)
  ];
}

-- Writing the cell that is asked for.
write-Filled :
    (size : ℕ) (before target : ℕ → Cell) (cols x : ℕ) (row : Buffer Cell) (c : Cell)
    → Filled size before target cols x row
    → x < cols
    → cols ≤ size
    → target x ≡ c
    → Safe (Filled size before target cols (x + 1)) (write row x c)
write-Filled size before target cols x row c f h k p =
    Safe-mono (write-put row x c (omega (arith, f.size_eq)))
      λ row' e. rw (e, ← p) (Filled-put size before target cols x row f h)

-- The column that a text of `n` bytes from column `x` ends in.
abbrev end_of : ℕ → ℕ → ℕ → ℕ
end_of cols x n = if ltb cols (x + n) then cols else x + n

-- The cells of a text, and those of pieces one after the other.
unfoldable pub text_cells : List ℕ → Style → List Cell → List Cell
text_cells [] st rest = rest
text_cells (b ∷ bs) st rest = status_cell (shown_byte b) st ∷ text_cells bs st rest

unfoldable pub piece_cells : List Piece → List Cell
piece_cells [] = []
piece_cells (p ∷ ps) = text_cells p.0 p.1 (piece_cells ps)

abbrev pub blank : Cell
blank = status_cell b' ' status_bar_color

-- From column `x` on, the cells of `cells` are asked for, and blanks behind them, as far as there
-- are columns.
abbrev Asks : (ℕ → Cell) → ℕ → ℕ → List Cell → Type 0
Asks target cols x cells = x < cols → (k : ℕ) → target (x + k) ≡ get_or cells k blank

Asks-next :
    (target : ℕ → Cell) (cols x : ℕ) (c : Cell) (cells : List Cell)
    → Asks target cols x (c ∷ cells)
    → Asks target cols (x + 1) cells
unfolding get_or
Asks-next target cols x c cells a h k =
    let e : x + 1 + k ≡ x + suc k = omega arith in rw e (a (omega arith) (suc k))

Asks-here :
    (target : ℕ → Cell) (cols x : ℕ) (c : Cell) (cells : List Cell)
    → Asks target cols x (c ∷ cells)
    → x < cols
    → target x ≡ c
unfolding get_or
Asks-here target cols x c cells a h = let e : x ≡ x + 0 = omega arith in rw e (a h 0)

-- What a text, or pieces, leave of a row: it is filled up to a column from which the rest is asked
-- for.
abbrev Wrote : ℕ → (ℕ → Cell) → (ℕ → Cell) → ℕ → List Cell → Buffer Cell × ℕ → Type 0
Wrote size before target cols rest r =
    Filled size before target cols r.1 r.0 × Asks target cols r.1 rest

status_put-Wrote :
    (size : ℕ) (before target : ℕ → Cell) (row : Buffer Cell) (cols x : ℕ) (text : List ℕ)
    (st : Style) (rest : List Cell)
    → Filled size before target cols x row
    → cols ≤ size
    → Asks target cols x (text_cells text st rest)
    → Safe (Wrote size before target cols rest) (status_put row cols x text st)
unfolding status_put text_cells
status_put-Wrote size before target row cols x [] st rest f k a = safe (f, a)
status_put-Wrote size before target row cols x (b ∷ bs) st rest f k a =
    Safe-if (ltb x cols)
      (λ c.
        let h : x < cols = ground arith in
        Safe-bind
          (write-Filled size before target cols x row _ f h k (Asks-here target cols x _ _ a h))
          λ row' f'.
            status_put-Wrote size before target row' cols (x + 1) bs st rest f' k
              (Asks-next target cols x _ _ a))
      (λ c. safe (f, λ h. absurd (ground arith)))

put_pieces-Wrote :
    (size : ℕ) (before target : ℕ → Cell) (row : Buffer Cell) (cols x : ℕ) (ps : List Piece)
    → Filled size before target cols x row
    → cols ≤ size
    → Asks target cols x (piece_cells ps)
    → Safe (Wrote size before target cols []) (put_pieces row cols x ps)
unfolding put_pieces piece_cells
put_pieces-Wrote size before target row cols x [] f k a = safe (f, a)
put_pieces-Wrote size before target row cols x (p ∷ ps) f k a =
    Safe-bind (status_put-Wrote size before target row cols x p.0 p.1 (piece_cells ps) f k a)
      λ r g. put_pieces-Wrote size before target r.0 cols r.1 ps g.0 k g.1

blank_rest-Filled :
    (size : ℕ) (before target : ℕ → Cell) (row : Buffer Cell) (cols x left : ℕ)
    → Filled size before target cols x row
    → cols ≤ size
    → x + left ≡ cols
    → Asks target cols x []
    → Safe (Filled size before target cols cols) (blank_rest row x left)
unfolding blank_rest get_or
blank_rest-Filled size before target row cols x zero f k e a =
    let same : x ≡ cols = omega arith in safe (rw same at f)
blank_rest-Filled size before target row cols x (suc left) f k e a =
    let h : x < cols = omega arith in
    let here : x ≡ x + 0 = omega arith in
    Safe-bind (write-Filled size before target cols x row _ f h k (rw here (a h 0))) λ row' f'.
      blank_rest-Filled size before target row' cols (x + 1) left f' k (omega arith)
        λ h' j. let past : x + 1 + j ≡ x + suc j = omega arith in rw past (a h (suc j))

shown-IsPlain : (b : ℕ) (st : Style) → IsPlain (status_cell (shown_byte b) st)
shown-IsPlain b st = record {
  low = ground arith;
  high = ground arith;
  no_attrs = refl;
  no_flags = refl;
}

text_cells-IsPlain :
    (text : List ℕ) (st : Style) (rest : List Cell)
    → ((k : ℕ) → IsPlain (get_or rest k blank))
    → (k : ℕ) → IsPlain (get_or (text_cells text st rest) k blank)
unfolding text_cells get_or
text_cells-IsPlain [] st rest h k = h k
text_cells-IsPlain (b ∷ bs) st rest h zero = shown-IsPlain b st
text_cells-IsPlain (b ∷ bs) st rest h (suc k) = text_cells-IsPlain bs st rest h k

piece_cells-IsPlain : (ps : List Piece) (k : ℕ) → IsPlain (get_or (piece_cells ps) k blank)
unfolding piece_cells get_or
piece_cells-IsPlain [] k = shown-IsPlain b' ' status_bar_color
piece_cells-IsPlain (p ∷ ps) k = text_cells-IsPlain p.0 p.1 _ (piece_cells-IsPlain ps) k

-- What the row of the status line is in the end.
pub record IsStatusRow (row : Buffer Cell) (cols : ℕ) (layout : List Piece) (row' : Buffer Cell)
    : Type 0 where
  pub size_eq : row'.size ≡ row.size
  pub shows : (i : ℕ) → i < cols → row'.at i ≡ get_or (piece_cells layout) i blank
  pub plain : (i : ℕ) → i < cols → IsPlain (row'.at i)
  pub behind : (i : ℕ) → cols ≤ i → row'.at i ≡ row.at i

-- Whatever bytes the names of the host and of the programs and the clock hold, status_cells makes no
-- access outside a row of at least `cols` cells, changes no cell behind them, and leaves in them the
-- cells of the layout in their order, as far as there is room, and blanks behind them; all of them
-- are printable ASCII without attributes or flags.
pub status_cells-IsStatusRow :
    (hostname clock : List ℕ) (row : Buffer Cell) (cols active : ℕ) (tabs : List (Option Tab))
    → cols ≤ row.size
    → Safe
        (IsStatusRow row cols (status_layout hostname clock cols active tabs))
        (status_cells hostname clock row cols active tabs)
unfolding status_cells
status_cells-IsStatusRow hostname clock row cols active tabs h =
    let ps = status_layout hostname clock cols active tabs in
    let target : ℕ → Cell = λ i. get_or (piece_cells ps) i blank in
    let start : Filled row.size row.at target cols 0 row = record {
      size_eq = refl;
      inside = omega arith;
      done = λ i k. absurd (omega arith);
      behind = λ i k. refl;
    } in
    let asks : Asks target cols 0 (piece_cells ps) =
      λ _ k. let e : 0 + k ≡ k = omega arith in rw e refl in
    Safe-bind (put_pieces-Wrote row.size row.at target row cols 0 ps start h asks) λ r w.
      Safe-mono
        (blank_rest-Filled row.size row.at target r.0 cols r.1 (cols - r.1) w.0 h
          (omega (arith, w.0.inside)) w.1)
        λ row' f. record {
          size_eq = f.size_eq;
          shows = f.done;
          plain = λ i k. rw (f.done i k) (piece_cells-IsPlain ps i);
          behind = f.behind;
        }
