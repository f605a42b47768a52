-- ===== src/Vt/Safety/Feed.antt =====
-- The parser is safe on every sequence of bytes: no access outside an array, whatever it is fed.
use u.Common.{
  ℕ, zero, suc, ◌-◌, ◌<◌, ◌≡◌, Bool, not, List, [], ◌∷◌, ◌&&◌, ◌||◌, arith, Safe, safe, Safe-bind,
  Safe-mono, Safe-if, ltb, leb, ◌==◌, if_either, length,
}
use u.Common.Buffer.{read-Safe, write-Safe}
use u.Vt.Types.{
  VtState, ground_state, esc_state, esc_inter_state, csi_param, csi_inter, osc_state, dcs_state,
}
use u.Vt.Types.{VtParser, vt_max_params, vt_max_inter, vt_max_osc}
use u.Vt.Utf8.{Decoded, carry, with_carry}
use u.Vt.Feed.{
  to_state, csi_clear, csi_digit, csi_sep, keep_inter, dec_graphics, get_elem?, translate,
  print_decoded, feed_ground, feed_esc, feed_esc_inter, finish_csi, feed_csi_param, feed_csi_inter,
  feed_osc, feed_dcs, feed_restart, feed_in, in_ground, feed_byte, vt_feed,
}
use u.Vt.Safety.{ParserValid}
use u.Vt.Safety.Put.{put_char-Safe}
use u.Vt.Safety.Control.{handle_c0-Safe}
use u.Vt.Safety.Csi.{dispatch_csi-Safe}
use u.Vt.Safety.Escape.{dispatch_esc-Safe, dispatch_osc-Safe}
use u.Vt.Safety.Utf8.{utf8_feed-Safe}

in_state : {p : VtParser} (st : VtState) → ParserValid p → ParserValid (to_state st p)
in_state st v = ground arith

csi_clear-ParserValid : (p : VtParser) → ParserValid p → ParserValid (csi_clear p)
unfolding csi_clear
csi_clear-ParserValid p v = ground arith

csi_digit-Safe : (p : VtParser) (digit : ℕ) → ParserValid p → Safe ParserValid (csi_digit p digit)
unfolding csi_digit
csi_digit-Safe p digit v = Safe-bind (read-Safe p.params _ (ground arith)) λ n _.
    Safe-bind {P = λ b. b.size ≡ vt_max_params}
      (Safe-if (ltb n 16384)
        (λ _. Safe-mono (write-Safe p.params _ _ (ground arith)) λ b e. omega arith)
        (λ _. safe v.params_size))
      λ b e. safe (ground arith)

csi_sep-ParserValid : (p : VtParser) → ParserValid p → ParserValid (csi_sep p)
unfolding csi_sep
csi_sep-ParserValid p v = ground arith

keep_inter-Safe : (p : VtParser) (c : ℕ) → ParserValid p → Safe ParserValid (keep_inter p c)
unfolding keep_inter
keep_inter-Safe p c v =
    Safe-if (ltb p.num_inter vt_max_inter)
      (λ t. Safe-bind (write-Safe p.inter p.num_inter c (ground arith)) λ b e. safe (ground arith))
      (λ _. safe v)

get_elem?-Safe : (xs : List ℕ) (i : ℕ) → i < length xs → Safe (λ x. Unit) (get_elem? xs i)
unfolding get_elem?
get_elem?-Safe [] i h = absurd (omega arith)
get_elem?-Safe (x ∷ xs) zero h = safe tt
get_elem?-Safe (x ∷ xs) (suc i) h = get_elem?-Safe xs i (omega arith)

translate-Safe : (g0_dec : Bool) (cp : ℕ) → Safe (λ x. Unit) (translate g0_dec cp)
unfolding translate
translate-Safe g0_dec cp =
    Safe-if (g0_dec && (leb 0x60 cp && leb cp 0x7e))
      (λ e. get_elem?-Safe dec_graphics (cp - 0x60) (ground arith)) (λ _. safe tt)

print_decoded-Safe :
    (p : VtParser) (d : Decoded) → ParserValid p → Safe ParserValid (print_decoded p d)
unfolding print_decoded
print_decoded-Safe p (Decoded.complete cp) v =
    Safe-bind (translate-Safe p.g0_dec cp) λ ch _. put_char-Safe p ch v
print_decoded-Safe p Decoded.more v = safe v
print_decoded-Safe p Decoded.invalid v = safe v

feed_ground-Safe : (p : VtParser) (c : ℕ) → ParserValid p → Safe ParserValid (feed_ground p c)
unfolding feed_ground
feed_ground-Safe p c v =
    Safe-if (ltb c 0x20) (λ _. handle_c0-Safe p c v)
      λ _.
        Safe-if (c == 0x7F) (λ _. safe v)
          λ _.
            Safe-bind
              (utf8_feed-Safe (carry p) c (record { size_eq = v.utf8_size; fits = v.carry_fits }))
              λ r w. print_decoded-Safe (with_carry p r.0) r.1 (ground arith)

feed_esc-Safe : (p : VtParser) (c : ℕ) → ParserValid p → Safe ParserValid (feed_esc p c)
unfolding feed_esc
feed_esc-Safe p c v =
    Safe-if (c == b'[') (λ _. safe (in_state csi_param (csi_clear-ParserValid p v)))
      λ _.
        Safe-if (c == b']') (λ _. safe (ground arith))
          λ _.
            Safe-if (c == b'P' || c == b'^' || c == b'_') (λ _. safe (in_state dcs_state v))
              λ _.
                Safe-if (leb 0x20 c && leb c 0x2F) (λ _. safe (ground arith))
                  λ _.
                    Safe-if (leb 0x30 c && leb c 0x7E)
                      (λ _.
                        Safe-bind (dispatch_esc-Safe p c v) λ q w. safe (in_state ground_state w))
                      (λ _. safe (in_state ground_state v))

finish_csi-Safe : (p : VtParser) (c : ℕ) → ParserValid p → Safe ParserValid (finish_csi p c)
finish_csi-Safe p c v = Safe-bind (dispatch_csi-Safe p c v) λ q w. safe (in_state ground_state w)

feed_esc_inter-Safe : (p : VtParser) (c : ℕ) → ParserValid p → Safe ParserValid (feed_esc_inter p c)
unfolding feed_esc_inter
feed_esc_inter-Safe p c v =
    Safe-if (leb 0x30 c && leb c 0x7E) (λ _. safe (ground arith)) (λ _. safe v)

feed_csi_param-Safe : (p : VtParser) (c : ℕ) → ParserValid p → Safe ParserValid (feed_csi_param p c)
unfolding feed_csi_param
feed_csi_param-Safe p c v =
    Safe-if (leb b'0' c && leb c b'9') (λ _. csi_digit-Safe p _ v)
      λ _.
        Safe-if (c == b';') (λ _. safe (csi_sep-ParserValid p v))
          λ _.
            Safe-if (c == b'?') (λ _. safe (ground arith))
              λ _.
                Safe-if (c == b'>' || c == b'<' || c == b'=') (λ _. safe v)
                  λ _.
                    Safe-if (leb 0x20 c && leb c 0x2F)
                      (λ _. Safe-bind (keep_inter-Safe p c v) λ q w. safe (in_state csi_inter w))
                      λ _.
                        Safe-if (leb 0x40 c && leb c 0x7E) (λ _. finish_csi-Safe p c v)
                          (λ _. safe (in_state ground_state v))

feed_csi_inter-Safe : (p : VtParser) (c : ℕ) → ParserValid p → Safe ParserValid (feed_csi_inter p c)
unfolding feed_csi_inter
feed_csi_inter-Safe p c v =
    Safe-if (leb 0x20 c && leb c 0x2F) (λ _. keep_inter-Safe p c v)
      λ _.
        Safe-if (leb 0x40 c && leb c 0x7E) (λ _. finish_csi-Safe p c v)
          (λ _. safe (in_state ground_state v))

feed_osc-Safe : (p : VtParser) (c : ℕ) → ParserValid p → Safe ParserValid (feed_osc p c)
unfolding feed_osc
feed_osc-Safe p c v =
    Safe-if (c == 0x07 || c == 0x9C)
      (λ _. Safe-bind (dispatch_osc-Safe p v) λ q w. safe (in_state ground_state w))
      λ _.
        Safe-if (ltb p.osc_len (vt_max_osc - 1))
          (λ t. Safe-bind (write-Safe p.osc p.osc_len c (ground arith)) λ b e. safe (ground arith))
          (λ _. safe v)

feed_dcs-ParserValid : (p : VtParser) (c : ℕ) → ParserValid p → ParserValid (feed_dcs p c)
unfolding feed_dcs
feed_dcs-ParserValid p c v =
    if_either ParserValid (c == 0x07 || c == 0x9C) (in_state ground_state v) v

feed_restart-Safe :
    (st : VtState) (p : VtParser) → ParserValid p → Safe ParserValid (feed_restart st p)
unfolding feed_restart
feed_restart-Safe osc_state p v =
    Safe-bind (dispatch_osc-Safe p v) λ q w. safe (in_state esc_state (csi_clear-ParserValid q w))
feed_restart-Safe _ p v = safe (in_state esc_state (csi_clear-ParserValid p v))

feed_in-Safe :
    (st : VtState) (p : VtParser) (c : ℕ) → ParserValid p → Safe ParserValid (feed_in st p c)
unfolding feed_in
feed_in-Safe ground_state p c v = feed_ground-Safe p c v
feed_in-Safe esc_state p c v = feed_esc-Safe p c v
feed_in-Safe esc_inter_state p c v = feed_esc_inter-Safe p c v
feed_in-Safe csi_param p c v = feed_csi_param-Safe p c v
feed_in-Safe csi_inter p c v = feed_csi_inter-Safe p c v
feed_in-Safe osc_state p c v = feed_osc-Safe p c v
feed_in-Safe dcs_state p c v = safe (feed_dcs-ParserValid p c v)

pub feed_byte-Safe : (p : VtParser) (c : ℕ) → ParserValid p → Safe ParserValid (feed_byte p c)
unfolding feed_byte
feed_byte-Safe p c v =
    Safe-if ((c == 0x18 || c == 0x1A) && not (in_ground p.state))
      (λ _. safe (in_state ground_state v))
      λ _.
        Safe-if (c == 0x1B) (λ _. feed_restart-Safe p.state p v) (λ _. feed_in-Safe p.state p c v)

-- Whatever bytes a well-formed parser is fed, it makes no access outside its arrays, and it is
-- well-formed afterwards.
pub vt_feed-Safe :
    (p : VtParser) (bytes : List ℕ) → ParserValid p → Safe ParserValid (vt_feed p bytes)
unfolding vt_feed
vt_feed-Safe p [] v = safe v
vt_feed-Safe p (c ∷ cs) v = Safe-bind (feed_byte-Safe p c v) λ q w. vt_feed-Safe q cs w
