-- ===== src/Vt/Safety/Control.antt =====
-- The control characters, the rendition and the tab stops: safe, and the parser stays well-formed.
use u.Common.{
  ℕ, zero, suc, ◌+◌, ◌-◌, ◌/◌, ◌<◌, ◌≡◌, ◌&&◌, ◌||◌, arith, Safe, safe, Safe-bind, Safe-mono,
  Safe-if, ltb, ◌==◌, if_cases, ltb→lt,
}
use u.Common.Buffer.{Buffer, read-Safe, write-Safe}
use u.Vt.Types.{Screen, VtParser, vt_max_cols, tab_bytes}
use u.Vt.Tabs.{set_bit, clear_bit, tabs_loop, tabs_reset, tab_get, tab_set, tab_clear}
use u.Vt.Control.{tab_forward, handle_ht, handle_bs, handle_c0}
use u.Vt.Safety.{IsValid, ParserValid}
use u.Vt.Safety.Scroll.{do_lf-Safe}

abbrev pub IsTabs : Buffer ℕ → Type 0
IsTabs t = t.size ≡ tab_bytes

set_bit-Safe : (t : Buffer ℕ) (c : ℕ) → IsTabs t → c < vt_max_cols → Safe IsTabs (set_bit t c)
unfolding set_bit
set_bit-Safe t c v h =
    Safe-bind (read-Safe t (c / 8) (omega arith))
      λ b _. Safe-mono (write-Safe t (c / 8) _ (omega arith)) λ t' e. omega arith

clear_bit-Safe : (t : Buffer ℕ) (c : ℕ) → IsTabs t → c < vt_max_cols → Safe IsTabs (clear_bit t c)
unfolding clear_bit
clear_bit-Safe t c v h =
    Safe-bind (read-Safe t (c / 8) (omega arith))
      λ b _. Safe-mono (write-Safe t (c / 8) _ (omega arith)) λ t' e. omega arith

tabs_loop-Safe : (n cols c : ℕ) (t : Buffer ℕ) → IsTabs t → Safe IsTabs (tabs_loop n cols c t)
unfolding tabs_loop
tabs_loop-Safe zero cols c t v = safe v
tabs_loop-Safe (suc n) cols c t v =
    Safe-if (ltb c cols && ltb c vt_max_cols)
      (λ e.
        Safe-bind (set_bit-Safe t c v (ground arith)) λ t' w. tabs_loop-Safe n cols (c + 8) t' w)
      (λ _. safe v)

pub tabs_reset-Safe : (t : Buffer ℕ) (cols : ℕ) → IsTabs t → Safe IsTabs (tabs_reset t cols)
unfolding tabs_reset
tabs_reset-Safe t cols v = tabs_loop-Safe _ cols 0 _ v

pub tab_get-Safe : (t : Buffer ℕ) (c : ℕ) → IsTabs t → Safe (λ b. Unit) (tab_get t c)
unfolding tab_get
tab_get-Safe t c v =
    Safe-if (ltb c vt_max_cols)
      (λ e. Safe-bind (read-Safe t (c / 8) (omega (arith, ltb→lt c vt_max_cols e))) λ b _. safe tt)
      (λ _. safe tt)

pub tab_set-Safe : (t : Buffer ℕ) (c : ℕ) → IsTabs t → Safe IsTabs (tab_set t c)
unfolding tab_set
tab_set-Safe t c v =
    Safe-if (ltb c vt_max_cols) (λ e. set_bit-Safe t c v (ltb→lt _ _ e)) (λ _. safe v)

pub tab_clear-Safe : (t : Buffer ℕ) (c : ℕ) → IsTabs t → Safe IsTabs (tab_clear t c)
unfolding tab_clear
tab_clear-Safe t c v =
    Safe-if (ltb c vt_max_cols) (λ e. clear_bit-Safe t c v (ltb→lt _ _ e)) (λ _. safe v)

tab_forward-Safe :
    (n : ℕ) (t : Buffer ℕ) (cols col : ℕ)
    → IsTabs t
    → col + 1 < cols
    → Safe (λ c. c < cols) (tab_forward n t cols col)
unfolding tab_forward
tab_forward-Safe zero t cols col v h = safe (omega arith)
tab_forward-Safe (suc n) t cols col v h =
    Safe-if (ltb (col + 1) (cols - 1))
      (λ e. Safe-bind (tab_get-Safe t (col + 1) v) λ stop _.
        Safe-if stop (λ _. safe h) (λ _. tab_forward-Safe n t cols (col + 1) v (ground arith)))
      (λ _. safe h)

handle_ht-Safe : (p : VtParser) → ParserValid p → Safe ParserValid (handle_ht p)
unfolding handle_ht
handle_ht-Safe p v =
    Safe-bind {P = λ c. c < p.scr.cols}
      (Safe-if (ltb p.scr.cur_col (p.scr.cols - 1))
        (λ e. tab_forward-Safe _ p.tabstops p.scr.cols p.scr.cur_col v.tabs_size (ground arith))
        (λ _. safe v.screen.col_in))
      λ c h. safe (ground arith)

-- A parser whose screen alone has changed.
pub with_scr :
    {p : VtParser} (s : Screen) → ParserValid p → IsValid s → ParserValid (record p { scr = s })
with_scr s v w = ground arith

handle_bs-IsValid : (s : Screen) → IsValid s → IsValid (handle_bs s)
unfolding handle_bs
handle_bs-IsValid s v = if_cases IsValid (ltb 0 s.cur_col) (λ e. ground arith) (λ e. v)

pub handle_c0-Safe : (p : VtParser) (c : ℕ) → ParserValid p → Safe ParserValid (handle_c0 p c)
unfolding handle_c0
handle_c0-Safe p c v =
    Safe-if (c == 0x08) (λ _. safe (with_scr _ v (handle_bs-IsValid p.scr v.screen)))
      λ _.
        Safe-if (c == 0x09) (λ _. handle_ht-Safe p v)
          λ _.
            Safe-if (c == 0x0A || c == 0x0B || c == 0x0C)
              (λ _. Safe-bind (do_lf-Safe p.scr v.screen) λ s w. safe (with_scr s v w.0))
              λ _. Safe-if (c == 0x0D) (λ _. safe (ground arith)) (λ _. safe v)
