-- ===== src/Vt/Reflow/Commit.antt =====
-- The whole of a resize (_lib/vt.c: reflow, scr_resize, vt_resize). Allocations succeed, and `junk`
-- is what malloc returns.
pub mod Valid
pub mod Resized
use mathlib.Core.Option
use u.Common.{
  ℕ, zero, suc, ◌+◌, ◌-◌, ◌*◌, Bool, true, false, not, ◌&&◌, Option, none, some, List, [], ◌==◌,
  ltb, leb, if◌then◌else◌, check, length, take, ◌>>=◌,
}
use u.Common.Buffer.{Buffer, filled, read, write}
use u.Vt.Types.{Cell, Grid, Screen, VtParser}
use u.Vt.Cells.{alloc_cells}
use u.Vt.Scrollback.{scrollback_capture}
use u.Vt.Tabs.{tabs_reset}
use u.Vt.Resize.{smaller, clamp, resize_alt, resize_flags, resize_plain}
use u.Vt.Reflow.{Target}
use u.Vt.Reflow.Gather.{line_top, line_bottom, gather_around}
use u.Vt.Reflow.History.{text_buffer, line_start, capacity, pull_lines, lay_history}
use u.Vt.Reflow.Lines.{drop_blank, count_screen, lay_screen}

-- `alloc_cells(total, nc)` and `calloc(total, 1)`
abbrev pub fresh_target : ℕ → ℕ → Target
fresh_target total nc = record { tg = alloc_cells total nc; tf = filled total 0 }

-- The third step, where it is taken: `pull` and `hrows`.
unfoldable pub pull_history : Bool → Buffer ℕ → Buffer Cell → ℕ → ℕ → ℕ → ℕ → Option (ℕ × ℕ)
pull_history false b tmp nr nc screen_rows cut = some (cut, 0)
pull_history true b tmp nr nc screen_rows cut = pull_lines cut b tmp nr nc screen_rows cut 0

-- The line before which the cursor's stands, where there are `n` lines.
abbrev pub line_number : ℕ → Option ℕ → ℕ
line_number n none = n
line_number n (some f) = f

-- What is laid out, the row of the cursor in it, and `pull < cut ? pull : len`.
pub record Laid : Type 0 where
  pub target : Target
  pub total : ℕ
  pub cur_abs : ℕ
  pub text_len : ℕ

-- The first four steps of `reflow`, for the text of the scrollback.
unfoldable pub lay_out : (ℕ → Cell) → Screen → List ℕ → ℕ → ℕ → Option Laid
lay_out junk s text nr nc = do
  let b = text_buffer text
  cut ← line_start b (length text)
  cf ← line_top s s.cur_row
  cl ← line_bottom s s.cur_row (s.rows - 1 - s.cur_row)
  g ← gather_around s (record { size = s.rows * s.cols + 2; at = junk }) cf cl
  let frozen = line_number (length g.lines) g.frozen
  let lines = drop_blank frozen 0 g.lines
  (sb, sa) ← count_screen g.lin nc frozen 0 lines 0 0
  let line_rows = cl - cf + 1
  let screen_rows = sb + line_rows + sa
  let tmp : Buffer Cell = record { size = capacity nr nc; at = junk }
  (pull, hrows) ← pull_history (ltb s.rows nr && cut == length text) b tmp nr nc screen_rows cut
  let total = hrows + screen_rows
  (t, row) ← lay_history cut b tmp nr nc cut pull (fresh_target total nc) 0
  (t', row') ← lay_screen s g.lin cf line_rows nc frozen lines t row
  some (record {
    target = t';
    total = total;
    cur_abs = hrows + sb + (s.cur_row - cf);
    text_len = if ltb pull cut then pull else length text;
  })

-- `scrollback_capture(s, &tg[r], tf[r])` for the rows from `r` on, with the rows left.
unfoldable pub push_rows : Screen → Target → ℕ → ℕ → Option Screen
push_rows s t r zero = some s
push_rows s t r (suc left) = do
  f ← read t.tf r
  s' ← scrollback_capture s t.tg r f
  push_rows s' t (r + 1) left

-- `memcpy(ng[r], tg[from], nc * sizeof(Cell))`
unfoldable pub take_row : Grid → ℕ → Grid → ℕ → ℕ → Option Grid
take_row g r tg from nc =
    check (ltb r g.height && (leb nc g.width && (ltb from tg.height && leb nc tg.width)))
      (record g { at = λ i j. if i == r && ltb j nc then tg.at from j else g.at i j })

-- The rows of `t` from row `over` on, put at row `r` of the new grid and its flags, with the rows
-- left.
unfoldable pub keep_rows : Target → ℕ → ℕ → Target → ℕ → ℕ → Option Target
keep_rows t over nc new r zero = some new
keep_rows t over nc new r (suc left) = do
  g ← take_row new.tg r t.tg (over + r) nc
  f ← read t.tf (over + r)
  nf ← write new.tf r f
  keep_rows t over nc (record { tg = g; tf = nf }) (r + 1) left

-- The fifth step: the rows that go to the scrollback, never the cursor's, and those that stay.
abbrev pub over_of : Laid → ℕ → ℕ
over_of l nr = let over = l.total - nr in if ltb l.cur_abs over then l.cur_abs else over

abbrev pub keep_of : Laid → ℕ → ℕ
keep_of l nr = smaller (l.total - over_of l nr) nr

-- What is committed: `s'` is the screen after the captures.
abbrev pub committed : Screen → Screen → Laid → Target → Option Grid → ℕ → ℕ → Screen
committed s s' l new alt nr nc =
    let crow = l.cur_abs - over_of l nr in
    let ccol = s.cur_col + (if s.pending_wrap then 1 else 0) in
    record s' {
      cells = new.tg;
      alt_cells = alt;
      row_flags = some new.tf;
      rows = nr;
      cols = nc;
      scroll_top = 0;
      scroll_bottom = nr - 1;
      cur_row = clamp crow nr;
      cur_col = clamp ccol nc;
      pending_wrap = false;
      saved_row = clamp s.saved_row nr;
      saved_col = clamp s.saved_col nc;
      alt_saved_row = clamp s.alt_saved_row nr;
      alt_saved_col = clamp s.alt_saved_col nc;
    }

unfoldable pub reflow : (ℕ → Cell) → Screen → List ℕ → ℕ → ℕ → Option Screen
reflow junk s text nr nc = do
  l ← lay_out junk s text nr nc
  s' ←
      push_rows (record s { scrollback = some (take l.text_len text); cols = nc }) l.target 0
        (over_of l nr)
  new ← keep_rows l.target (over_of l nr) nc (fresh_target nr nc) 0 (keep_of l nr)
  alt ← resize_alt s.alt_cells s.rows s.cols nr nc
  some (committed s s' l new alt nr nc)

-- Whether the screen is reflowed, where it has a scrollback.
unfoldable pub reflows : Screen → ℕ → Bool
reflows s new_cols =
    not s.in_alt_screen && (leb 2 new_cols && (s.scroll_top == 0 && s.scroll_bottom == s.rows - 1))

unfoldable pub resize_with : Option (List ℕ) → (ℕ → Cell) → Screen → ℕ → ℕ → Option Screen
resize_with none junk s new_rows new_cols = resize_plain s new_rows new_cols
resize_with (some text) junk s new_rows new_cols =
    if reflows s new_cols
    then reflow junk s text new_rows new_cols
    else resize_plain s new_rows new_cols

unfoldable pub scr_resize : (ℕ → Cell) → Screen → ℕ → ℕ → Option Screen
scr_resize junk s new_rows new_cols = resize_with s.scrollback junk s new_rows new_cols

unfoldable pub vt_resize : (ℕ → Cell) → VtParser → ℕ → ℕ → Option VtParser
vt_resize junk p rows cols = if rows == p.scr.rows && cols == p.scr.cols then some p else (do
  s ← scr_resize junk p.scr rows cols
  let s' = record s { alt_row_flags = Option.map (resize_flags p.scr.rows rows) s.alt_row_flags }
  t ← tabs_reset p.tabstops cols
  some (record p { scr = s'; tabstops = t }))
