-- ===== src/Vt/Wire/Restored.antt =====
-- The pieces of vt_deserialize (_lib/vt.c): what a terminal is after each of them.
use u.Common.{
  ℕ, ◌≤◌, ◌<◌, ◌≡◌, refl, ◌∙◌, true, Option, none, some, [], arith, Safe, safe, Safe-bind, Safe-and,
}
use u.Common.Buffer.{filled}
use u.Vt.Types.{Grid, Screen, VtParser, vt_max_params, vt_max_inter, vt_max_osc, tab_bytes}
use u.Vt.Cells.{alloc_cells}
use u.Vt.Init.{scr_init, vt_init, vt_start}
use u.Vt.Safety.{IsValid, ParserValid, AltFits}
use u.Vt.Safety.Control.{tabs_reset-Safe}
use u.Vt.Safety.Escape.{vt_init-Safe}
use u.Vt.Wire.{title_size}
use u.Vt.Wire.Numbers.{to_bool-from_bool}
use u.Vt.Wire.Grids.{copy_in-elements, until_nul-padded}
use u.Vt.Wire.Represent.{IsRepresentable, vt_wire}
use u.Vt.Wire.Serial.{screen_wire_of, restore_screen, restore_parser}
use u.Vt.Wire.Rows.{elements, padded, until_nul}
use u.Vt.Wire.Reread.{GridRead, AltRead}

-- The screen with what is restored of it: its cells are those of the fresh one.
abbrev pub without_history : Screen → Grid → Option Grid → Screen
without_history s g alt = record s {
  cells = g;
  alt_cells = alt;
  row_flags = some (filled s.rows 0);
  alt_row_flags = none;
  scrollback = some [];
}

restore_screen_lem :
    (s : Screen)
    → until_nul (padded title_size s.title) ≡ s.title
    → restore_screen (scr_init s.rows s.cols true) (screen_wire_of s)
      ≡ without_history s (alloc_cells s.rows s.cols) none
unfolding restore_screen scr_init screen_wire_of
restore_screen_lem s e =
    rw
      (
        e,
        to_bool-from_bool s.cur_visible,
        to_bool-from_bool s.pending_wrap,
        to_bool-from_bool s.origin_mode,
        to_bool-from_bool s.auto_wrap,
        to_bool-from_bool s.app_cursor,
        to_bool-from_bool s.bracketed_paste,
        to_bool-from_bool s.insert_mode,
        to_bool-from_bool s.in_alt_screen,
        to_bool-from_bool s.saved_wrap,
      )
      refl

-- `q` is `p` with its cells, its arrays and its screen; the flags of the rows, the scrollback and the
-- character that REP repeats are those of a fresh terminal.
pub record Restored (p q : VtParser) : Type 0 where
  pub state : q.state ≡ p.state
  pub params : (i : ℕ) → i < vt_max_params → q.params.at i ≡ p.params.at i
  pub num_params : q.num_params ≡ p.num_params
  pub inter : (i : ℕ) → i < vt_max_inter → q.inter.at i ≡ p.inter.at i
  pub num_inter : q.num_inter ≡ p.num_inter
  pub priv : q.priv ≡ p.priv
  pub osc : (i : ℕ) → i < vt_max_osc → q.osc.at i ≡ p.osc.at i
  pub osc_len : q.osc_len ≡ p.osc_len
  pub utf8_buf : (i : ℕ) → i < 4 → q.utf8_buf.at i ≡ p.utf8_buf.at i
  pub utf8_len : q.utf8_len ≡ p.utf8_len
  pub utf8_want : q.utf8_want ≡ p.utf8_want
  pub tabstops : (i : ℕ) → i < tab_bytes → q.tabstops.at i ≡ p.tabstops.at i
  pub cpr_requested : q.cpr_requested ≡ p.cpr_requested
  pub g0_dec : q.g0_dec ≡ p.g0_dec
  pub esc_inter : q.esc_inter ≡ p.esc_inter
  pub last_graphic : q.last_graphic ≡ 0
  pub screen : q.scr ≡ without_history p.scr q.scr.cells q.scr.alt_cells
  pub cells : GridRead p.scr.cells q.scr.cells p.scr.rows p.scr.cols
  pub alt_cells : AltRead p.scr.alt_cells q.scr.alt_cells p.scr.rows p.scr.cols
  pub valid : ParserValid q

-- A parser of that kind before its cells are read.
abbrev pub Started : VtParser → VtParser → Type 0
Started p q =
    (g : Grid) (alt : Option Grid)
    → GridRead p.scr.cells g p.scr.rows p.scr.cols
    → AltRead p.scr.alt_cells alt p.scr.rows p.scr.cols
    → Restored p (record q { scr = record q.scr { cells = g; alt_cells = alt } })

nothing_printed : (rows cols : ℕ) → Safe (λ f. f.last_graphic ≡ 0) (vt_init rows cols)
unfolding vt_init vt_start
nothing_printed rows cols =
    Safe-bind (tabs_reset-Safe (filled tab_bytes 0) cols refl) λ t e. safe refl

pub fresh-lem :
    (rows cols : ℕ)
    → 1 ≤ rows
    → 2 ≤ cols
    → Safe
        (λ f. (ParserValid f × (f.scr ≡ scr_init rows cols true)) × (f.last_graphic ≡ 0))
        (vt_init rows cols)
fresh-lem rows cols h k = Safe-and (vt_init-Safe rows cols h k) (nothing_printed rows cols)

restored-IsValid :
    (s : Screen) (g : Grid) (alt : Option Grid)
    → IsValid s
    → GridRead s.cells g s.rows s.cols
    → AltRead s.alt_cells alt s.rows s.cols
    → IsValid (without_history s g alt)
restored-IsValid s g alt v u w = record {
  height_eq = u.height_eq;
  width_eq = u.width_eq;
  rows_pos = v.rows_pos;
  cols_min = v.cols_min;
  row_in = v.row_in;
  col_in = v.col_in;
  top_le = v.top_le;
  bottom_in = v.bottom_in;
  saved_row_in = v.saved_row_in;
  saved_col_in = v.saved_col_in;
  alt_saved_row_in = v.alt_saved_row_in;
  alt_saved_col_in = v.alt_saved_col_in;
  flags_fit = refl;
  alt_flags_fit = tt;
  alt_fit = alt_fits s.alt_cells alt v.alt_fit w;
  text_fit = omega arith;
}
  where
    alt_fits :
        (old new : Option Grid)
        → AltFits s.rows s.cols s.in_alt_screen old
        → AltRead old new s.rows s.cols
        → AltFits s.rows s.cols s.in_alt_screen new
    alt_fits none none h k = h
    alt_fits none (some g') h k = absurd k
    alt_fits (some g') none h k = absurd k
    alt_fits (some g') (some g'') h k = (k.height_eq, k.width_eq)

pub restore_parser-Started :
    (p fresh : VtParser)
    → ParserValid p
    → IsRepresentable p
    → ParserValid fresh
    → fresh.scr ≡ scr_init p.scr.rows p.scr.cols true
    → fresh.last_graphic ≡ 0
    → Safe
        (λ q.
          (q.scr ≡ without_history p.scr (alloc_cells p.scr.rows p.scr.cols) none) × Started p q)
        (restore_parser fresh p.state
          (vt_wire p)
          (elements p.osc.at 0 vt_max_osc)
          (screen_wire_of p.scr))
unfolding restore_parser vt_wire
restore_parser-Started p f v r w e z =
    Safe-bind (copy_in-elements f.params p.params.at vt_max_params (omega (arith, w.params_size)))
      λ b1 c1.
        Safe-bind (copy_in-elements f.inter p.inter.at vt_max_inter (omega (arith, w.inter_size)))
          λ b2 c2.
            Safe-bind (copy_in-elements f.utf8_buf p.utf8_buf.at 4 (omega (arith, w.utf8_size)))
              λ b3 c3.
                Safe-bind
                  (copy_in-elements f.tabstops p.tabstops.at tab_bytes (omega (arith, w.tabs_size)))
                  λ b4 c4.
                    Safe-bind
                      (copy_in-elements f.osc p.osc.at vt_max_osc (omega (arith, w.osc_size)))
                      λ b5 c5.
                        let title =
                          until_nul-padded title_size p.scr.title (omega (arith, r.title_length))
                            r.title_chars in
                        let screen : restore_screen f.scr (screen_wire_of p.scr)
                            ≡ without_history p.scr (alloc_cells p.scr.rows p.scr.cols) none =
                          rw e (restore_screen_lem p.scr title) in
                        safe (
                          rw screen (
                            refl,
                            λ g alt u a. record {
                              state = refl;
                              params = λ i h. c1.taken i h;
                              num_params = refl;
                              inter = λ i h. c2.taken i h;
                              num_inter = refl;
                              priv = to_bool-from_bool p.priv;
                              osc = λ i h. c5.taken i h;
                              osc_len = refl;
                              utf8_buf = λ i h. c3.taken i h;
                              utf8_len = refl;
                              utf8_want = refl;
                              tabstops = λ i h. c4.taken i h;
                              cpr_requested = to_bool-from_bool p.cpr_requested;
                              g0_dec = to_bool-from_bool p.g0_dec;
                              esc_inter = refl;
                              last_graphic = z;
                              screen = refl;
                              cells = u;
                              alt_cells = a;
                              valid = record {
                                params_size = c1.size_eq ∙ w.params_size;
                                num_params_le = v.num_params_le;
                                inter_size = c2.size_eq ∙ w.inter_size;
                                num_inter_le = v.num_inter_le;
                                osc_size = c5.size_eq ∙ w.osc_size;
                                osc_len_lt = v.osc_len_lt;
                                utf8_size = c3.size_eq ∙ w.utf8_size;
                                carry_fits = v.carry_fits;
                                tabs_size = c4.size_eq ∙ w.tabs_size;
                                screen = restored-IsValid p.scr g alt v.screen u a;
                              };
                            },
                          ))
