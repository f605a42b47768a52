-- ===== src/Vt/Safety/Escape.antt =====
-- Fresh screens, escape sequences and operating system commands are safe and well-formed.
use native.Mathlib.Decide.{dec_lt}
use u.Common.{
  ℕ, zero, suc, ◌+◌, ◌≤◌, ◌<◌, ◌≡◌, refl, ap, Bool, true, false, Option, some, none, List, arith,
  Safe, safe, Safe-bind, Safe-mono, Safe-if, Safe-check, ◌==◌, lt→ltb,
}
use u.Common.Buffer.{Buffer, filled, write, read-Safe}
use u.Vt.Types.{Screen, VtParser, vt_max_osc, tab_bytes}
use u.Vt.Init.{scr_init, vt_start, vt_init}
use u.Vt.Escape.{reset_terminal, dispatch_esc, c_string, set_title, dispatch_osc, title_of}
use u.Vt.Safety.{IsValid, ParserValid}
use u.Vt.Safety.Cursor.{save_cursor-IsValid, restore_cursor-IsValid}
use u.Vt.Safety.Scroll.{do_lf-Safe, do_ri-Safe}
use u.Vt.Safety.Control.{with_scr, tabs_reset-Safe, tab_set-Safe}
use u.Vt.Safety.Csi.{on_screen-Safe}

scr_init-IsValid :
    (rows cols : ℕ) (history : Bool) → 1 ≤ rows → 2 ≤ cols → IsValid (scr_init rows cols history)
unfolding scr_init
scr_init-IsValid rows cols true h k = ground arith
scr_init-IsValid rows cols false h k = ground arith

pub vt_start-Safe :
    (history : Bool) (rows cols : ℕ)
    → 1 ≤ rows
    → 2 ≤ cols
    → Safe (λ p. ParserValid p × (p.scr ≡ scr_init rows cols history)) (vt_start history rows cols)
unfolding vt_start
vt_start-Safe history rows cols h k =
    let s = scr_init-IsValid rows cols history h k in
    Safe-bind (tabs_reset-Safe (filled tab_bytes 0) cols refl) λ t e. safe (ground arith, refl)

-- A fresh terminal of at least one row and two columns is well-formed, with the size asked for.
pub vt_init-Safe :
    (rows cols : ℕ)
    → 1 ≤ rows
    → 2 ≤ cols
    → Safe (λ p. ParserValid p × (p.scr ≡ scr_init rows cols true)) (vt_init rows cols)
unfolding vt_init
vt_init-Safe rows cols h k = vt_start-Safe true rows cols h k

reset_terminal-Safe : (p : VtParser) → ParserValid p → Safe ParserValid (reset_terminal p)
unfolding reset_terminal
reset_terminal-Safe p v =
    let s = scr_init-IsValid p.scr.rows p.scr.cols true v.screen.rows_pos v.screen.cols_min in
    Safe-bind (tabs_reset-Safe p.tabstops p.scr.cols v.tabs_size) λ t e. safe (ground arith)

at_margin : {s : Screen} → IsValid s → IsValid (record s { cur_col = 0 })
at_margin v = ground arith

pub dispatch_esc-Safe :
    (p : VtParser) (final : ℕ) → ParserValid p → Safe ParserValid (dispatch_esc p final)
unfolding dispatch_esc
dispatch_esc-Safe p final v =
    let w = v.screen in
    Safe-if (final == b'7') (λ _. safe (with_scr _ v (save_cursor-IsValid w)))
      λ _.
        Safe-if (final == b'8') (λ _. safe (with_scr _ v (restore_cursor-IsValid w)))
          λ _.
            Safe-if (final == b'D')
              (λ _. on_screen-Safe v (Safe-mono (do_lf-Safe p.scr w) (λ t q. q.0)))
              λ _.
                Safe-if (final == b'E')
                  (λ _. on_screen-Safe v (Safe-mono (do_lf-Safe _ (at_margin w)) (λ t q. q.0)))
                  λ _.
                    Safe-if (final == b'H')
                      (λ _.
                        Safe-bind (tab_set-Safe p.tabstops p.scr.cur_col v.tabs_size)
                          λ t e. safe (ground arith))
                      λ _.
                        Safe-if (final == b'M') (λ _. on_screen-Safe v (do_ri-Safe p.scr w))
                          λ _. Safe-if (final == b'c') (λ _. reset_terminal-Safe p v) (λ _. safe v)

-- The string ends at a zero that lies inside the array and within reach.
c_string-Safe :
    (n : ℕ) (b : Buffer ℕ) (i j : ℕ)
    → b.at j ≡ 0
    → i ≤ j
    → j < i + n
    → j < b.size
    → Safe (λ cs. Unit) (c_string n b i)
unfolding c_string
c_string-Safe zero b i j z h k l = absurd (omega arith)
c_string-Safe (suc n) b i j z h k l = Safe-bind (read-Safe b i (omega arith)) λ c e.
    Safe-if (c == 0) (λ _. safe tt)
      λ ne.
        Safe-bind (c_string-Safe n b (i + 1) j z (further c e ne) (omega arith) l) λ cs _. safe tt
  where
    further : (c : ℕ) → c ≡ b.at i → (c == 0) ≡ false → i + 1 ≤ j
    further c e ne = elim (dec_lt i j) [
      | yes p ↦ omega arith
      | no p ↦ let same : i ≡ j = omega arith in absurd (ground (arith, ap b.at same))
    ]

-- The byte that `write` stores is there afterwards.
write-stored :
    (b : Buffer ℕ) (i v : ℕ)
    → i < b.size
    → Safe (λ c. (c.size ≡ b.size) × (c.at i ≡ v)) (write b i v)
unfolding write
write-stored b i v h = Safe-check _ _ (lt→ltb i b.size h) (refl, ground arith)

set_title-IsValid : (s : Screen) (title : Option (List ℕ)) → IsValid s → IsValid (set_title s title)
unfolding set_title
set_title-IsValid s none v = v
set_title-IsValid s (some title) v = ground arith

pub dispatch_osc-Safe : (p : VtParser) → ParserValid p → Safe ParserValid (dispatch_osc p)
unfolding dispatch_osc
dispatch_osc-Safe p v = Safe-bind (write-stored p.osc _ 0 (ground arith)) λ osc e.
    Safe-bind (c_string-Safe vt_max_osc osc 0 _ e.1 (omega arith) (ground arith) (ground arith))
      λ text _. let s = set_title-IsValid p.scr (title_of text) v.screen in safe (ground arith)
