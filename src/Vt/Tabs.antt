-- ===== src/Vt/Tabs.antt =====
-- Tab stops (_lib/vt.c): a bitset of columns below VT_MAX_COLS.
use u.Common.{
  ℕ, zero, suc, ◌+◌, ◌-◌, ◌/◌, ◌%◌, ◌^◌, Bool, false, not, Option, some, ◌&&◌, ltb, ◌==◌,
  if◌then◌else◌, ◌>>=◌, bit_and, bit_or,
}
use u.Common.Buffer.{Buffer, read, write}
use u.Vt.Types.{vt_max_cols}

-- `t[col / 8] |= (uint8_t)(1u << (col % 8))`
unfoldable pub set_bit : Buffer ℕ → ℕ → Option (Buffer ℕ)
set_bit t col = do b ← read t (col / 8); write t (col / 8) (bit_or b (2 ^ (col % 8)))

-- `t[col / 8] &= (uint8_t)~(1u << (col % 8))`
unfoldable pub clear_bit : Buffer ℕ → ℕ → Option (Buffer ℕ)
clear_bit t col = do b ← read t (col / 8); write t (col / 8) (bit_and b (255 - 2 ^ (col % 8)))

-- The loop of `tabs_reset`: `c` goes up by 8 while it is below the columns and VT_MAX_COLS, so at
-- most `vt_max_cols / 8` rounds are made.
unfoldable pub tabs_loop : ℕ → ℕ → ℕ → Buffer ℕ → Option (Buffer ℕ)
tabs_loop zero cols c t = some t
tabs_loop (suc n) cols c t =
    if ltb c cols && ltb c vt_max_cols
    then (do t' ← set_bit t c; tabs_loop n cols (c + 8) t')
    else some t

-- `tabs_reset`, on the array that it first zeroes
unfoldable pub tabs_reset : Buffer ℕ → ℕ → Option (Buffer ℕ)
tabs_reset t cols = tabs_loop (vt_max_cols / 8) cols 0 (record t { at = λ i. 0 })

unfoldable pub tab_get : Buffer ℕ → ℕ → Option Bool
tab_get t col =
    if ltb col vt_max_cols
    then (do b ← read t (col / 8); some (not (bit_and (b / 2 ^ (col % 8)) 1 == 0)))
    else some false

unfoldable pub tab_set : Buffer ℕ → ℕ → Option (Buffer ℕ)
tab_set t col = if ltb col vt_max_cols then set_bit t col else some t

unfoldable pub tab_clear : Buffer ℕ → ℕ → Option (Buffer ℕ)
tab_clear t col = if ltb col vt_max_cols then clear_bit t col else some t
