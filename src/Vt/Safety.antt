-- ===== src/Vt/Safety.antt =====
-- The well-formedness of the screen and of the parser: what keeps every access of _lib/vt.c inside
-- its array. The modules below show that each operation keeps it, and makes no access outside.
pub mod Capture
pub mod Cursor
pub mod Scroll
pub mod Put
pub mod Control
pub mod Sgr
pub mod Edit
pub mod Private
pub mod Csi
pub mod Escape
pub mod Feed
pub mod Utf8
pub mod Resize
use u.Common.{ℕ, ◌+◌, ◌≤◌, ◌<◌, ◌≡◌, Bool, true, false, Option, none, some, List, ◌⊎◌, length}
use u.Common.Buffer.{Buffer}
use u.Vt.Types.{
  Grid, Screen, VtParser, scrollback_bytes, vt_max_params, vt_max_inter, vt_max_osc, tab_bytes,
}

-- The flags of the rows, where there are any, are one for each row.
abbrev pub FlagsFit : ℕ → Option (Buffer ℕ) → Type 0
FlagsFit rows none = Unit
FlagsFit rows (some f) = f.size ≡ rows

-- The other grid has the size of the screen, and is there while the alternate screen is shown.
abbrev pub AltFits : ℕ → ℕ → Bool → Option Grid → Type 0
AltFits rows cols in_alt none = in_alt ≡ false
AltFits rows cols in_alt (some g) = (g.height ≡ rows) × (g.width ≡ cols)

abbrev pub TextFits : Option (List ℕ) → Type 0
TextFits none = Unit
TextFits (some t) = length t ≤ scrollback_bytes

-- There is a scrollback.
abbrev pub HasText : Option (List ℕ) → Type 0
HasText none = ⊥
HasText (some t) = Unit

pub record IsValid (s : Screen) : Type 0 where
  pub height_eq : s.cells.height ≡ s.rows
  pub width_eq : s.cells.width ≡ s.cols
  pub rows_pos : 1 ≤ s.rows
  pub cols_min : 2 ≤ s.cols
  pub row_in : s.cur_row < s.rows
  pub col_in : s.cur_col < s.cols
  pub top_le : s.scroll_top ≤ s.scroll_bottom
  pub bottom_in : s.scroll_bottom < s.rows
  pub saved_row_in : s.saved_row < s.rows
  pub saved_col_in : s.saved_col < s.cols
  pub alt_saved_row_in : s.alt_saved_row < s.rows
  pub alt_saved_col_in : s.alt_saved_col < s.cols
  pub flags_fit : FlagsFit s.rows s.row_flags
  pub alt_flags_fit : FlagsFit s.rows s.alt_row_flags
  pub alt_fit : AltFits s.rows s.cols s.in_alt_screen s.alt_cells
  pub text_fit : TextFits s.scrollback

-- The decoder is between sequences, or inside one that is not yet complete.
abbrev pub CarryFits : ℕ → ℕ → Type 0
CarryFits len want = (want ≡ 0) ⊎ ((1 ≤ len) × (len < want) × (want ≤ 4))

pub record ParserValid (p : VtParser) : Type 0 where
  pub params_size : p.params.size ≡ vt_max_params
  pub num_params_le : p.num_params ≤ vt_max_params
  pub inter_size : p.inter.size ≡ vt_max_inter
  pub num_inter_le : p.num_inter ≤ vt_max_inter
  pub osc_size : p.osc.size ≡ vt_max_osc
  pub osc_len_lt : p.osc_len < vt_max_osc
  pub utf8_size : p.utf8_buf.size ≡ 4
  pub carry_fits : CarryFits p.utf8_len p.utf8_want
  pub tabs_size : p.tabstops.size ≡ tab_bytes
  pub screen : IsValid p.scr
