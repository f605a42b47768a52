-- ===== src/Tmux/Status.antt =====
-- The status line (tmux/status.c: status_layout, status_put, status_cells, with the colours of
-- tmux/config.h). The name of the host, the clock and the names of the processes are parameters:
-- strings that gethostname, strftime and /proc give. `none` is a write outside the row.
pub mod Row
pub mod Width
mod Tests
use u.Common.{
  ℕ, zero, suc, ◌+◌, ◌-◌, ◌/◌, ◌%◌, Bool, not, ◌&&◌, Option, none, some, List, [], ◌∷◌, ◌++◌, ◌==◌,
  ltb, leb, if◌then◌else◌, length, take, ◌>>=◌,
}
use u.Common.Buffer.{Buffer, write}
use u.Vt.Types.{Cell}

pub record Style : Type 0 where
  pub fg : ℕ
  pub bg : ℕ

abbrev pub status_bar_color : Style
status_bar_color = record { fg = 250; bg = 234 }

abbrev pub status_left_color : Style
status_left_color = record { fg = 78; bg = 237 }

abbrev pub status_right_color : Style
status_right_color = record { fg = 78; bg = 237 }

abbrev pub window_status_color : Style
window_status_color = record { fg = 78; bg = 0 }

abbrev pub window_status_current_color : Style
window_status_current_color = record { fg = 0; bg = 72 }

abbrev pub window_status_activity_color : Style
window_status_activity_color = record { fg = 240; bg = 236 }

-- A window there is: whether it is alive, and what proc_name says of its process.
pub record Tab : Type 0 where
  pub alive : Bool
  pub name : List ℕ

-- "%d" of a number below 100
unfoldable pub numeral : ℕ → List ℕ
numeral n = if ltb n 10 then (b'0' + n) ∷ [] else (b'0' + n / 10) ∷ (b'0' + n % 10) ∷ []

abbrev pub dead_name : List ℕ
dead_name = b'd' ∷ b'e' ∷ b'a' ∷ b'd' ∷ []

-- "%d:%s", for the window in slot `i`
unfoldable pub tab_text : ℕ → Tab → List ℕ
tab_text i t = numeral (i + 1) ++ b':' ∷ take 10 (if t.alive then t.name else dead_name)

abbrev pub tab_style : ℕ → ℕ → Tab → Style
tab_style active i t =
    if i == active
    then window_status_current_color
    else if not t.alive
    then window_status_activity_color
    else window_status_color

-- What is given to `emit`: a text and its style.
abbrev pub Piece : Type 0
Piece = List ℕ × Style

abbrev pub space : List ℕ
space = b' ' ∷ []

-- The tabs of the slots from `i` on.
unfoldable pub tab_pieces : ℕ → ℕ → List (Option Tab) → List Piece
tab_pieces active i [] = []
tab_pieces active i (none ∷ tabs) = tab_pieces active (i + 1) tabs
tab_pieces active i (some t ∷ tabs) =
    (space, status_bar_color)
    ∷ (tab_text i t, tab_style active i t)
    ∷ tab_pieces active (i + 1) tabs

-- The columns that the tabs add to `printed`.
unfoldable pub tabs_width : ℕ → List (Option Tab) → ℕ
tabs_width i [] = 0
tabs_width i (none ∷ tabs) = tabs_width (i + 1) tabs
tabs_width i (some t ∷ tabs) = length (tab_text i t) + 1 + tabs_width (i + 1) tabs

unfoldable pub pad_text : ℕ → List ℕ
pad_text zero = []
pad_text (suc n) = b' ' ∷ pad_text n

-- The padding, in chunks of at most 64; each round takes one space at least.
unfoldable pub pad_pieces : ℕ → ℕ → List Piece
pad_pieces zero pad = []
pad_pieces (suc fuel) pad =
    let chunk = if ltb pad 64 then pad else 64 in
    let rest = pad_pieces fuel (pad - chunk) in
    if ltb 0 pad then (pad_text chunk, status_bar_color) ∷ rest else []

unfoldable pub status_layout : List ℕ → List ℕ → ℕ → ℕ → List (Option Tab) → List Piece
status_layout hostname clock cols active tabs =
    let printed = length hostname + 1 + tabs_width 0 tabs + 1 in
    let pad = cols - printed - (length clock + 2) in
    (space, status_left_color)
    ∷ (hostname, status_left_color)
    ∷ (tab_pieces active 0 tabs
        ++ (space, status_bar_color)
          ∷ (pad_pieces pad pad
              ++ (space, status_right_color)
                ∷ (clock, status_right_color)
                ∷ (space, status_right_color)
                ∷ []))

-- `(ch >= 0x20 && ch < 0x7f) ? ch : '?'`
abbrev pub shown_byte : ℕ → ℕ
shown_byte b = if leb 0x20 b && ltb b 0x7f then b else b'?'

abbrev pub status_cell : ℕ → Style → Cell
status_cell ch st = record { ch = ch; fg = st.fg; bg = st.bg; attrs = 0; flags = 0 }

-- The row and the column after the text.
unfoldable pub status_put : Buffer Cell → ℕ → ℕ → List ℕ → Style → Option (Buffer Cell × ℕ)
status_put row cols x [] st = some (row, x)
status_put row cols x (b ∷ bs) st =
    if ltb x cols
    then (do row' ← write row x (status_cell (shown_byte b) st); status_put row' cols (x + 1) bs st)
    else some (row, x)

-- `cell_emit` on the pieces, one after the other.
unfoldable pub put_pieces : Buffer Cell → ℕ → ℕ → List Piece → Option (Buffer Cell × ℕ)
put_pieces row cols x [] = some (row, x)
put_pieces row cols x (p ∷ ps) = do
  (row', x') ← status_put row cols x p.0 p.1
  put_pieces row' cols x' ps

-- The rest of a row, with the cells left.
unfoldable pub blank_rest : Buffer Cell → ℕ → ℕ → Option (Buffer Cell)
blank_rest row x zero = some row
blank_rest row x (suc left) = do
  row' ← write row x (status_cell b' ' status_bar_color)
  blank_rest row' (x + 1) left

unfoldable pub status_cells :
    List ℕ → List ℕ → Buffer Cell → ℕ → ℕ → List (Option Tab) → Option (Buffer Cell)
status_cells hostname clock row cols active tabs = do
  (row', x) ← put_pieces row cols 0 (status_layout hostname clock cols active tabs)
  blank_rest row' x (cols - x)
