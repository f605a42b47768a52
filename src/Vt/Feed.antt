-- ===== src/Vt/Feed.antt =====
-- The state machine of the parser (_lib/vt.c, vt_feed), one definition for each state.
use u.Common.{
  ℕ, zero, suc, ◌+◌, ◌-◌, ◌*◌, Bool, true, false, not, Option, none, some, List, [], ◌∷◌, ◌&&◌,
  ◌||◌, ltb, leb, ◌==◌, if◌then◌else◌, ◌>>=◌,
}
use u.Common.Buffer.{read, write}
use u.Vt.Types.{
  VtState, ground_state, esc_state, esc_inter_state, csi_param, csi_inter, osc_state, dcs_state,
}
use u.Vt.Types.{VtParser, vt_max_params, vt_max_inter, vt_max_osc}
use u.Vt.Put.{put_char}
use u.Vt.Control.{handle_c0}
use u.Vt.Csi.{dispatch_csi}
use u.Vt.Escape.{dispatch_esc, dispatch_osc}
use u.Vt.Utf8.{Decoded, utf8_feed, carry, with_carry}

abbrev pub to_state : VtState → VtParser → VtParser
to_state st p = record p { state = st }

unfoldable pub csi_clear : VtParser → VtParser
csi_clear p = record p {
  params = record p.params { at = λ i. 0 };
  num_params = 0;
  inter = record p.inter { at = λ i. 0 };
  num_inter = 0;
  priv = false;
}

-- `if (p->num_params == 0) p->num_params = 1;`
abbrev pub at_least_one : ℕ → ℕ
at_least_one n = if n == 0 then 1 else n

unfoldable pub csi_digit : VtParser → ℕ → Option VtParser
csi_digit p digit = do
  let n = at_least_one p.num_params
  v ← read p.params (n - 1)
  params ← (if ltb v 16384 then write p.params (n - 1) (v * 10 + digit) else some p.params)
  some (record p { params = params; num_params = n })

unfoldable pub csi_sep : VtParser → VtParser
csi_sep p =
    let n = at_least_one p.num_params in
    record p { num_params = if ltb n vt_max_params then n + 1 else n }

-- an intermediate byte, kept while there is room
unfoldable pub keep_inter : VtParser → ℕ → Option VtParser
keep_inter p c =
    if ltb p.num_inter vt_max_inter
    then (do
      b ← write p.inter p.num_inter c
      some (record p { inter = b; num_inter = p.num_inter + 1 }))
    else some p

abbrev pub dec_graphics : List ℕ
dec_graphics =
    0x25c6 ∷ 0x2592 ∷ 0x2409 ∷ 0x240c ∷ 0x240d ∷ 0x240a ∷ 0x00b0 ∷ 0x00b1 ∷ 0x2424 ∷ 0x240b ∷ 0x2518
    ∷ 0x2510 ∷ 0x250c ∷ 0x2514 ∷ 0x253c ∷ 0x23ba ∷ 0x23bb ∷ 0x2500 ∷ 0x23bc ∷ 0x23bd ∷ 0x251c
    ∷ 0x2524 ∷ 0x2534 ∷ 0x252c ∷ 0x2502 ∷ 0x2264 ∷ 0x2265 ∷ 0x03c0 ∷ 0x2260 ∷ 0x00a3 ∷ 0x00b7 ∷ []

unfoldable pub get_elem? : List ℕ → ℕ → Option ℕ
get_elem? [] i = none
get_elem? (x ∷ xs) zero = some x
get_elem? (x ∷ xs) (suc i) = get_elem? xs i

-- the line drawing characters, where G0 is the DEC set
unfoldable pub translate : Bool → ℕ → Option ℕ
translate g0_dec cp =
    if g0_dec && (leb 0x60 cp && leb cp 0x7e) then get_elem? dec_graphics (cp - 0x60) else some cp

-- what a decoded byte prints
unfoldable pub print_decoded : VtParser → Decoded → Option VtParser
print_decoded p (Decoded.complete cp) = do ch ← translate p.g0_dec cp; put_char p ch
print_decoded p Decoded.more = some p
print_decoded p Decoded.invalid = some p

unfoldable pub feed_ground : VtParser → ℕ → Option VtParser
feed_ground p c =
    if ltb c 0x20
    then handle_c0 p c
    else if c == 0x7F
    then some p
    else (do (k, d) ← utf8_feed (carry p) c; print_decoded (with_carry p k) d)

unfoldable pub feed_esc : VtParser → ℕ → Option VtParser
feed_esc p c =
    if c == b'['
    then some (to_state csi_param (csi_clear p))
    else if c == b']'
    then some (record p { osc_len = 0; state = osc_state })
    else if c == b'P' || c == b'^' || c == b'_'
    then some (to_state dcs_state p)
    else if leb 0x20 c && leb c 0x2F
    then some (record p { esc_inter = c; state = esc_inter_state })
    else if leb 0x30 c && leb c 0x7E
    then (do p' ← dispatch_esc p c; some (to_state ground_state p'))
    else some (to_state ground_state p)

unfoldable pub feed_esc_inter : VtParser → ℕ → Option VtParser
feed_esc_inter p c =
    if leb 0x30 c && leb c 0x7E
    then some (record p {
      g0_dec = if p.esc_inter == b'(' && (c == b'0' || c == b'B') then c == b'0' else p.g0_dec;
      state = ground_state;
    })
    else some p

abbrev pub finish_csi : VtParser → ℕ → Option VtParser
finish_csi p c = do p' ← dispatch_csi p c; some (to_state ground_state p')

unfoldable pub feed_csi_param : VtParser → ℕ → Option VtParser
feed_csi_param p c =
    if leb b'0' c && leb c b'9'
    then csi_digit p (c - b'0')
    else if c == b';'
    then some (csi_sep p)
    else if c == b'?'
    then some (record p { priv = true })
    else if c == b'>' || c == b'<' || c == b'='
    then some p
    else if leb 0x20 c && leb c 0x2F
    then (do p' ← keep_inter p c; some (to_state csi_inter p'))
    else if leb 0x40 c && leb c 0x7E
    then finish_csi p c
    else some (to_state ground_state p)

unfoldable pub feed_csi_inter : VtParser → ℕ → Option VtParser
feed_csi_inter p c =
    if leb 0x20 c && leb c 0x2F
    then keep_inter p c
    else if leb 0x40 c && leb c 0x7E
    then finish_csi p c
    else some (to_state ground_state p)

unfoldable pub feed_osc : VtParser → ℕ → Option VtParser
feed_osc p c =
    if c == 0x07 || c == 0x9C
    then (do p' ← dispatch_osc p; some (to_state ground_state p'))
    else if ltb p.osc_len (vt_max_osc - 1)
    then (do b ← write p.osc p.osc_len c; some (record p { osc = b; osc_len = p.osc_len + 1 }))
    else some p

unfoldable pub feed_dcs : VtParser → ℕ → VtParser
feed_dcs p c = if c == 0x07 || c == 0x9C then to_state ground_state p else p

-- ESC: an OSC that it cuts off is still dispatched.
unfoldable pub feed_restart : VtState → VtParser → Option VtParser
feed_restart osc_state p = do p' ← dispatch_osc p; some (to_state esc_state (csi_clear p'))
feed_restart _ p = some (to_state esc_state (csi_clear p))

-- The switch on the state.
unfoldable pub feed_in : VtState → VtParser → ℕ → Option VtParser
feed_in ground_state p c = feed_ground p c
feed_in esc_state p c = feed_esc p c
feed_in esc_inter_state p c = feed_esc_inter p c
feed_in csi_param p c = feed_csi_param p c
feed_in csi_inter p c = feed_csi_inter p c
feed_in osc_state p c = feed_osc p c
feed_in dcs_state p c = some (feed_dcs p c)

-- CAN and SUB leave any state but the ground.
unfoldable pub in_ground : VtState → Bool
in_ground ground_state = true
in_ground _ = false

unfoldable pub feed_byte : VtParser → ℕ → Option VtParser
feed_byte p c =
    if (c == 0x18 || c == 0x1A) && not (in_ground p.state)
    then some (to_state ground_state p)
    else if c == 0x1B
    then feed_restart p.state p
    else feed_in p.state p c

unfoldable pub vt_feed : VtParser → List ℕ → Option VtParser
vt_feed p [] = some p
vt_feed p (c ∷ cs) = do p' ← feed_byte p c; vt_feed p' cs
