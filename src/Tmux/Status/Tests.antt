-- ===== src/Tmux/Status/Tests.antt =====
-- The status line (tmux/status.c) at concrete inputs.
use u.Common.{◌≡◌, refl, true, false, Option, none, some, List, [], ◌∷◌, length, arith, Safe}
use u.Common.Buffer.{filled}
use u.Vt.Cells.{fresh_cell}
use u.Tmux.Status.{
  tab_pieces, pad_pieces, Tab, status_layout, status_cells, tabs_width, numeral, tab_text,
}
use u.Tmux.Status.Row.{text_cells, IsStatusRow, piece_cells, status_cells-IsStatusRow}
use u.Tmux.Status.Width.{IsFull, status_layout-IsFull}

-- The second slot is free, and the name of the first program holds an escape sequence.
abbrev two_tabs : List (Option Tab)
two_tabs =
    some (record { alive = true; name = b'v' ∷ 0x1B ∷ b'[' ∷ b'J' ∷ [] })
    ∷ none
    ∷ some (record { alive = false; name = [] })
    ∷ []

status_cells-IsStatusRow_example :
    Safe
      (IsStatusRow (filled 40 fresh_cell) 30 (status_layout (b'h' ∷ []) (b'7' ∷ []) 30 0 two_tabs))
      (status_cells (b'h' ∷ []) (b'7' ∷ []) (filled 40 fresh_cell) 30 0 two_tabs)
status_cells-IsStatusRow_example =
    status_cells-IsStatusRow (b'h' ∷ []) (b'7' ∷ []) (filled 40 fresh_cell) 30 0 two_tabs
      (omega arith)

status_layout-IsFull_example :
    IsFull (piece_cells (status_layout (b'h' ∷ []) (b'7' ∷ []) 30 0 two_tabs)) (b'7' ∷ []) 30
unfolding tabs_width tab_text numeral
status_layout-IsFull_example =
    status_layout-IsFull (b'h' ∷ []) (b'7' ∷ []) 30 0 two_tabs (omega arith)

-- With four columns the layout is six cells wide.
too_narrow : length (piece_cells (status_layout (b'h' ∷ []) (b'7' ∷ []) 4 0 [])) ≡ 6
unfolding piece_cells status_layout tab_pieces tabs_width pad_pieces text_cells
too_narrow = refl

dead_tab :
    tab_text 9 (record { alive = false; name = [] })
    ≡ b'1' ∷ b'0' ∷ b':' ∷ b'd' ∷ b'e' ∷ b'a' ∷ b'd' ∷ []
unfolding tab_text numeral
dead_tab = refl
