-- ===== src/Vt/Safety/Cursor.antt =====
-- The moves of the cursor keep the screen well-formed.
use u.Common.{ℕ, ◌<◌, arith, ltb, ◌==◌, if◌then◌else◌, if_either, if_cases}
use u.Common.Int.{ℤ}
use u.Vt.Types.{Screen}
use u.Vt.Scroll.{cursor_set}
use u.Vt.Safety.{IsValid}
use u.Vt.Csi.Move.{save_cursor, restore_cursor, set_region, csi_cursor}
use u.Vt.Types.{VtParser}

pub cursor_set-IsValid : {s : Screen} (row col : ℤ) → IsValid s → IsValid (cursor_set s row col)
unfolding cursor_set
cursor_set-IsValid row col v = ground arith

pub save_cursor-IsValid : {s : Screen} → IsValid s → IsValid (save_cursor s)
unfolding save_cursor
save_cursor-IsValid v = ground arith

pub restore_cursor-IsValid : {s : Screen} → IsValid s → IsValid (restore_cursor s)
unfolding restore_cursor
restore_cursor-IsValid v = ground arith

-- The region that `set_region` takes over, if it holds two rows at least.
region-IsValid :
    {s : Screen} (top bot : ℕ)
    → IsValid s
    → bot < s.rows
    → IsValid (if ltb top bot then record s { scroll_top = top; scroll_bottom = bot } else s)
region-IsValid top bot v h = if_cases IsValid (ltb top bot) (λ e. ground arith) (λ e. v)

pub set_region-IsValid : (p : VtParser) → IsValid p.scr → IsValid (set_region p)
unfolding set_region
set_region-IsValid p v = cursor_set-IsValid _ _ (region-IsValid _ _ v (ground arith))

pub csi_cursor-IsValid : (p : VtParser) (final : ℕ) → IsValid p.scr → IsValid (csi_cursor p final)
unfolding csi_cursor
csi_cursor-IsValid p final v = if_either IsValid (final == b'A') (cursor_set-IsValid _ _ v) (
    if_either IsValid (final == b'B') (cursor_set-IsValid _ _ v) (
      if_either IsValid (final == b'C') (cursor_set-IsValid _ _ v) (
        if_either IsValid (final == b'D') (cursor_set-IsValid _ _ v) (
          if_either IsValid (final == b'E') (cursor_set-IsValid _ _ v) (
            if_either IsValid (final == b'F') (cursor_set-IsValid _ _ v) (
              if_either IsValid (final == b'G') (cursor_set-IsValid _ _ v) (
                if_either IsValid (final == b'd') (cursor_set-IsValid _ _ v)
                  (cursor_set-IsValid _ _ v))))))))
