-- ===== src/Tmux/Status/Width.antt =====
-- The status line is as wide as the terminal where that is wide enough (tmux/status.c,
-- status_layout).
use u.Common.{
  ◌∙◌, ◌<◌, ℕ, zero, suc, ◌+◌, ◌-◌, ◌≤◌, ◌≡◌, refl, Option, none, some, List, [], ◌∷◌, ◌++◌, length,
  ltb, if◌then◌else◌, arith, Bool-cases, inl, inr,
}
use u.Vt.Types.{Cell}
use u.Tmux.Status.{
  status_left_color, shown_byte, status_cell, Style, Tab, Piece, space, status_bar_color,
  status_right_color, tab_pieces, tabs_width, pad_text, pad_pieces, status_layout,
}
use u.Vt.Wire.Rows.{get_or}
use mathlib.Core.List.{append_assoc}
use u.Tmux.Status.Row.{blank, text_cells, piece_cells}

-- The columns of pieces.
unfoldable width : List Piece → ℕ
width [] = 0
width (p ∷ ps) = length p.0 + width ps

length-text_cells :
    (text : List ℕ) (st : Style) (rest : List Cell)
    → length (text_cells text st rest) ≡ length text + length rest
unfolding text_cells
length-text_cells [] st rest = omega arith
length-text_cells (b ∷ bs) st rest = omega (arith, length-text_cells bs st rest)

length-piece_cells : (ps : List Piece) → length (piece_cells ps) ≡ width ps
unfolding piece_cells width
length-piece_cells [] = refl
length-piece_cells (p ∷ ps) =
    omega (arith, length-text_cells p.0 p.1 (piece_cells ps), length-piece_cells ps)

width-append : (ps qs : List Piece) → width (ps ++ qs) ≡ width ps + width qs
unfolding width
width-append [] qs = omega arith
width-append (p ∷ ps) qs = omega (arith, width-append ps qs)

width-tab_pieces :
    (active i : ℕ) (tabs : List (Option Tab)) → width (tab_pieces active i tabs) ≡ tabs_width i tabs
unfolding width tab_pieces tabs_width
width-tab_pieces active i [] = refl
width-tab_pieces active i (none ∷ tabs) = width-tab_pieces active (i + 1) tabs
width-tab_pieces active i (some t ∷ tabs) = omega (arith, width-tab_pieces active (i + 1) tabs)

length-pad_text : (n : ℕ) → length (pad_text n) ≡ n
unfolding pad_text
length-pad_text zero = refl
length-pad_text (suc n) = omega (arith, length-pad_text n)

width-pad_pieces : (fuel pad : ℕ) → pad ≤ fuel → width (pad_pieces fuel pad) ≡ pad
unfolding width pad_pieces
width-pad_pieces zero pad h = omega arith
width-pad_pieces (suc fuel) pad h =
    let chunk = if ltb pad 64 then pad else 64 in
    elim (Bool-cases (ltb 0 pad)) [
      | inl e ↦ rw e (ground (arith, length-pad_text chunk, width-pad_pieces fuel (pad - chunk)))
      | inr e ↦ rw e (ground arith)
    ]

-- The cells of pieces that stand behind others.
get_or-text_cells :
    (text : List ℕ) (st : Style) (rest : List Cell) (k : ℕ)
    → get_or (text_cells text st rest) (length text + k) blank ≡ get_or rest k blank
unfolding text_cells get_or
get_or-text_cells [] st rest k = let e : 0 + k ≡ k = omega arith in rw e refl
get_or-text_cells (b ∷ bs) st rest k =
    let e : suc (length bs) + k ≡ suc (length bs + k) = omega arith in
    rw e (get_or-text_cells bs st rest k)

get_or-piece_cells :
    (ps qs : List Piece) (k : ℕ)
    → get_or (piece_cells (ps ++ qs)) (width ps + k) blank ≡ get_or (piece_cells qs) k blank
unfolding piece_cells width
get_or-piece_cells [] qs k = let e : 0 + k ≡ k = omega arith in rw e refl
get_or-piece_cells (p ∷ ps) qs k =
    let e : length p.0 + width ps + k ≡ length p.0 + (width ps + k) = omega arith in
    rw e (
      get_or-text_cells p.0 p.1 (piece_cells (ps ++ qs)) (width ps + k)
      ∙ get_or-piece_cells ps qs k)

-- The cells of a text.
get_or-text :
    (text : List ℕ) (st : Style) (rest : List Cell) (k : ℕ)
    → k < length text
    → get_or (text_cells text st rest) k blank ≡ status_cell (shown_byte (get_or text k 0)) st
unfolding text_cells get_or
get_or-text [] st rest k h = absurd (omega arith)
get_or-text (b ∷ bs) st rest zero h = refl
get_or-text (b ∷ bs) st rest (suc k) h = get_or-text bs st rest k (omega arith)

-- What comes before the clock.
left_pieces : List ℕ → List ℕ → ℕ → ℕ → List (Option Tab) → List Piece
left_pieces hostname clock cols active tabs =
    let pad = cols - (length hostname + 1 + tabs_width 0 tabs + 1) - (length clock + 2) in
    (space, status_left_color)
    ∷ (hostname, status_left_color)
    ∷ (tab_pieces active 0 tabs
        ++ (space, status_bar_color) ∷ (pad_pieces pad pad ++ (space, status_right_color) ∷ []))

status_layout-left_pieces :
    (hostname clock : List ℕ) (cols active : ℕ) (tabs : List (Option Tab))
    → status_layout hostname clock cols active tabs
      ≡ left_pieces hostname clock cols active tabs
        ++ (clock, status_right_color) ∷ (space, status_right_color) ∷ []
unfolding status_layout left_pieces
status_layout-left_pieces hostname clock cols active tabs = simp append_assoc

width-left_pieces :
    (hostname clock : List ℕ) (cols active : ℕ) (tabs : List (Option Tab))
    → width (left_pieces hostname clock cols active tabs)
      ≡ length hostname
        + tabs_width 0 tabs
        + 3
        + (cols - (length hostname + 1 + tabs_width 0 tabs + 1) - (length clock + 2))
unfolding width left_pieces
width-left_pieces hostname clock cols active tabs =
    let pad = cols - (length hostname + 1 + tabs_width 0 tabs + 1) - (length clock + 2) in
    let last : List Piece = (space, status_right_color) ∷ [] in
    let padded = width-append (pad_pieces pad pad) last in
    let tabbed =
      width-append (tab_pieces active 0 tabs)
        ((space, status_bar_color) ∷ (pad_pieces pad pad ++ last)) in
    omega (
      arith,
      tabbed,
      padded,
      width-tab_pieces active 0 tabs,
      width-pad_pieces pad pad (omega arith),
    )

-- The columns that the names, the clock and the spaces around them need.
abbrev pub needed : List ℕ → List ℕ → List (Option Tab) → ℕ
needed hostname clock tabs = length hostname + tabs_width 0 tabs + length clock + 4

-- Cells that fill the columns, with the clock before the last one.
pub record IsFull (cells : List Cell) (clock : List ℕ) (cols : ℕ) : Type 0 where
  pub filled : length cells ≡ cols
  pub clock_shown :
      (k : ℕ)
      → k < length clock
      → get_or cells (cols - 1 - length clock + k) blank
        ≡ status_cell (shown_byte (get_or clock k 0)) status_right_color

-- Where the names and the clock leave room, the layout is as many cells as there are columns, and
-- the clock ends at the last column but one, in its own colours.
pub status_layout-IsFull :
    (hostname clock : List ℕ) (cols active : ℕ) (tabs : List (Option Tab))
    → needed hostname clock tabs ≤ cols
    → IsFull (piece_cells (status_layout hostname clock cols active tabs)) clock cols
unfolding width piece_cells
status_layout-IsFull hostname clock cols active tabs h =
    let left = left_pieces hostname clock cols active tabs in
    let right : List Piece = (clock, status_right_color) ∷ (space, status_right_color) ∷ [] in
    let wide = width-left_pieces hostname clock cols active tabs in
    let total = length-piece_cells (left ++ right) ∙ width-append left right in
    rw (status_layout-left_pieces hostname clock cols active tabs) (record {
      filled = omega (arith, total, wide);
      clock_shown = λ k w.
          let place : cols - 1 - length clock + k ≡ width left + k = omega (arith, wide) in
          rw place (get_or-piece_cells left right k ∙ get_or-text clock status_right_color _ k w);
    })
