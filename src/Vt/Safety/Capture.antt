-- ===== src/Vt/Safety/Capture.antt =====
-- Capturing a row for the scrollback stays inside the row, the 4096 bytes of `tmp` and the
-- scrollback, and changes no other field of the screen.
use u.Common.{
  ℕ, zero, suc, ◌+◌, ◌-◌, ◌≤◌, ◌<◌, ◌≡◌, refl, Option, none, some, List, [], ◌∷◌, not, arith, Safe,
  safe, Safe-bind, Safe-check, Safe-if, length, length-append, take, ltb, ◌==◌, if_either, ltb→lt,
  le→leb, bit_and, Option-cases, inl, inr,
}
use mathlib.Core.Path.{subst, sym}
use u.Vt.Types.{Cell, Grid, Screen, scrollback_bytes, row_wrapped}
use u.Vt.Cells.Bounds.{read_cell-Safe}
use u.Vt.Scrollback.{
  utf8_encode, tmp_size, Line, append_bytes, encode_cp, encode_cell, encode_row, finish_line,
  after_newline, evict, no_line, capture_text, scrollback_capture,
}
use u.Vt.Safety.{TextFits, HasText}

-- `tlen` counts the bytes of `tmp`, at most `limit` of them, and the last character that is no
-- space ends inside them.
pub record LineFits (limit : ℕ) (l : Line) : Type 0 where
  pub counted : length l.tmp ≡ l.tlen
  pub last_le : l.last_nonspace ≤ l.tlen
  pub short : l.tlen ≤ limit

pub length-utf8_encode-le : (cp : ℕ) → length (utf8_encode cp) ≤ 4
unfolding utf8_encode
length-utf8_encode-le cp = ground arith

append_bytes-Safe :
    (limit n : ℕ) (l : Line) (bs : List ℕ)
    → LineFits limit l
    → length bs ≤ n
    → limit + n ≤ tmp_size
    → Safe (LineFits (limit + n)) (append_bytes l bs)
unfolding append_bytes
append_bytes-Safe limit n l bs v h k =
    Safe-check _ _ (le→leb _ _ (omega arith)) (omega (arith, length-append l.tmp bs))

LineFits-mono : {m n : ℕ} {l : Line} → m ≤ n → LineFits m l → LineFits n l
LineFits-mono h v = omega arith

encode_cp-Safe : (cp : ℕ) (l : Line) → LineFits 4091 l → Safe (LineFits 4095) (encode_cp cp l)
unfolding encode_cp
encode_cp-Safe cp l v =
    Safe-bind
      (append_bytes-Safe 4091 4 l (utf8_encode cp) v (length-utf8_encode-le cp) (omega arith))
      λ l' v'. safe (if_either (LineFits 4095) (cp == 0x20) v' (omega arith))

encode_cell-Safe :
    (cell : Cell) (l : Line) → LineFits 4091 l → Safe (LineFits 4095) (encode_cell cell l)
unfolding encode_cell
encode_cell-Safe cell l v =
    Safe-if (not (bit_and cell.flags _ == 0)) (λ e. safe (LineFits-mono (omega arith) v))
      (λ e. encode_cp-Safe _ l v)

encode_row-Safe :
    (g : Grid) (r c n : ℕ) (l : Line)
    → r < g.height
    → c + n ≤ g.width
    → LineFits 4095 l
    → Safe (LineFits 4095) (encode_row g r c n l)
unfolding encode_row
encode_row-Safe g r c zero l h k v = safe v
encode_row-Safe g r c (suc n) l h k v =
    Safe-if (ltb l.tlen (tmp_size - 4))
      (λ e. Safe-bind (read_cell-Safe g r c h (omega arith)) λ cell _.
        Safe-bind (encode_cell-Safe cell l (omega (arith, ltb→lt l.tlen 4092 e)))
          λ l' v'. encode_row-Safe g r (c + 1) n l' h (omega arith) v')
      (λ e. safe v)

length-take : (n : ℕ) (xs : List ℕ) → n ≤ length xs → length (take n xs) ≡ n
length-take zero xs h = refl
length-take (suc n) [] h = absurd (omega arith)
length-take (suc n) (x ∷ xs) h = omega (arith, length-take n xs (omega arith))

finish_line-Safe :
    (l : Line) (rflags : ℕ) → LineFits 4095 l → Safe (LineFits 4096) (finish_line l rflags)
unfolding finish_line
finish_line-Safe l rflags v =
    Safe-if (not (bit_and rflags row_wrapped == 0)) (λ e. safe (LineFits-mono (omega arith) v))
      λ e.
        append_bytes-Safe 4095 1 _ (0x0A ∷ [])
          (omega (arith, length-take l.last_nonspace l.tmp (omega arith))) (omega arith)
          (omega arith)

pub length-after_newline-lt :
    (sb rest : List ℕ) → after_newline sb ≡ some rest → length rest < length sb
unfolding after_newline
length-after_newline-lt [] rest e = absurd (cc)
length-after_newline-lt (b ∷ bs) rest e = ground (arith, length-after_newline-lt bs rest)

-- Enough is evicted, given a round for each byte.
pub evict-fits :
    (n : ℕ) (sb : List ℕ) (tlen : ℕ)
    → length sb ≤ n
    → tlen ≤ scrollback_bytes
    → length (evict n sb tlen) + tlen ≤ scrollback_bytes
unfolding evict
evict-fits zero [] tlen h k = omega arith
evict-fits zero (b ∷ bs) tlen h k = absurd (omega arith)
evict-fits (suc n) sb tlen h k = elim (Option-cases (after_newline sb)) [
  | inl e ↦ rw (e, evict) (ground arith)
  | inr (rest, e) ↦
      rw (e, evict) (ground (arith, evict-fits n rest tlen, length-after_newline-lt sb rest e))
]

capture_text-Safe :
    (cols : ℕ) (g : Grid) (r rflags : ℕ) (sb : List ℕ)
    → r < g.height
    → cols ≤ g.width
    → Safe (λ t. length t ≤ scrollback_bytes) (capture_text cols g r rflags sb)
unfolding capture_text
capture_text-Safe cols g r rflags sb h k =
    Safe-bind (encode_row-Safe g r 0 cols no_line h (omega arith) (omega arith)) λ l v.
      Safe-bind (finish_line-Safe l rflags v) λ l' v'.
        let fits = evict-fits (length sb) sb l'.tlen (omega arith) (omega arith) in
        Safe-check _ _ (le→leb _ _ fits)
          (omega (arith, fits, length-append (evict (length sb) sb l'.tlen) l'.tmp))

-- A screen that differs from `s` in its scrollback alone, and whose scrollback fits.
pub record OnlyText (s t : Screen) : Type 0 where
  pub same : t ≡ record s { scrollback = t.scrollback }
  pub fits : TextFits t.scrollback
  pub kept : HasText s.scrollback → HasText t.scrollback

-- What holds of `s` with any scrollback that fits holds of a screen that differs in nothing else.
pub OnlyText-elim :
    (P : Screen → Type 0) {s t : Screen}
    → OnlyText s t
    → ((x : Option (List ℕ))
        → TextFits x
        → (HasText s.scrollback → HasText x)
        → P (record s { scrollback = x }))
    → P t
OnlyText-elim P {s} {t} o h = subst P (sym o.same) (h t.scrollback o.fits o.kept)

-- Keeping a row of a grid that is at least as wide as the screen makes no access outside the line
-- buffer, the row or the scrollback, whatever codepoints are in the cells, and changes nothing but
-- the scrollback, which stays within its bound.
pub scrollback_capture-Safe :
    (s : Screen) (g : Grid) (r rflags : ℕ)
    → TextFits s.scrollback
    → r < g.height
    → s.cols ≤ g.width
    → Safe (OnlyText s) (scrollback_capture s g r rflags)
unfolding scrollback_capture
scrollback_capture-Safe s g r rflags fit h k = go s.scrollback refl
  where
    go :
        (o : Option (List ℕ))
        → s.scrollback ≡ o
        → Safe (OnlyText s) (scrollback_capture s g r rflags)
    go none e =
        rw (e, scrollback_capture) (safe (record { same = refl; fits = fit; kept = λ k. absurd k }))
    go (some sb) e =
        rw (e, scrollback_capture)
          (Safe-bind (capture_text-Safe s.cols g r rflags sb h k)
            λ t f. safe (record { same = refl; fits = f; kept = λ _. tt }))
