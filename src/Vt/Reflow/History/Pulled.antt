-- ===== src/Vt/Reflow/History/Pulled.antt =====
-- The lines that a reflow takes back from the scrollback (_lib/vt.c, reflow, third step).
use u.Common.{
  ℕ, zero, suc, ◌+◌, ◌-◌, ◌≤◌, ◌<◌, ◌≡◌, ◌≢◌, refl, Option, none, some, List, [], ◌∷◌, ◌++◌, ◌==◌,
  ltb, ◌⊎◌, inl, inr, length, arith, Safe, safe, Safe-bind, Safe-mono, Safe-if, Option-cases,
  Safe-some, Safe-step, if_cases, length-append, false,
}
use u.Common.Buffer.{Buffer, read-Safe}
use u.Vt.Types.{Cell}
use u.Vt.Width.{cp_width}
use u.Vt.Reflow.{decode_text, decode_loop, count_rows, join_bytes, lead_byte, char_cells}
use u.Vt.Reflow.Layout.{count_rows-Safe}
use u.Vt.Reflow.Decode.{cells_of_char, length-cells_of_char, cells_of_char-pos}
use u.Vt.Reflow.History.{line_start, slice, with_cells, capacity, pull_lines}

-- Place `p` is the start of a line.
abbrev pub StartsLine : Buffer ℕ → ℕ → Type 0
StartsLine b p = (p ≡ 0) ⊎ ((1 ≤ p) × (b.at (p - 1) ≡ b'\n'))

pub line_start-Safe :
    (b : Buffer ℕ) (p : ℕ)
    → p ≤ b.size
    → Safe
        (λ q. (q ≤ p) × StartsLine b q × ((k : ℕ) → q ≤ k → k < p → b.at k ≢ b'\n'))
        (line_start b p)
unfolding line_start
line_start-Safe b zero h = safe (omega arith, inl refl, λ k q w. absurd (omega arith))
line_start-Safe b (suc p) h = Safe-bind (read-Safe b p (omega arith)) λ c e.
    Safe-if (c == b'\n')
      (λ z.
        let back : suc p - 1 ≡ p = omega arith in
        safe
          (omega arith, inr (omega arith, rw back (ground arith)), λ k q w. absurd (omega arith)))
      (λ z.
        Safe-mono (line_start-Safe b p (omega arith)) λ q t.
          let (lo, start, whole) = t in (omega arith, start, λ k u w. ground (arith, whole k)))

pub slice-Safe :
    (b : Buffer ℕ) (from n : ℕ) → from + n ≤ b.size → Safe (λ (t : List ℕ). Unit) (slice b from n)
unfolding slice
slice-Safe b from zero h = safe tt
slice-Safe b from (suc n) h =
    Safe-bind (read-Safe b from (omega arith))
      λ c e. Safe-bind (slice-Safe b (from + 1) n (omega arith)) λ t w. safe tt

-- The lines from a place up to `cut`, as they are decoded, take a number of rows at `nc` columns.
pub data History (b : Buffer ℕ) (tmp : Buffer Cell) (nr nc cut : ℕ) : ℕ → ℕ → Type 0 where
  done : History b tmp nr nc cut cut 0
  line :
      {q p rows more : ℕ} {text : List ℕ} {cells : List Cell}
      → q ≤ p
      → p < cut
      → b.at p ≡ b'\n'
      → ((k : ℕ) → q ≤ k → k < p → b.at k ≢ b'\n')
      → slice b q (p - q) ≡ some text
      → decode_text text (capacity nr nc) ≡ some cells
      → count_rows (with_cells tmp cells) 0 (length cells) nc ≡ some rows
      → History b tmp nr nc cut (suc p) more
      → History b tmp nr nc cut q (more + rows)

abbrev CellsFit : ℕ → Option (List Cell) → Type 0
CellsFit cap none = Unit
CellsFit cap (some cells) = length cells ≤ cap

decode_loop-CellsFit :
    (fuel cap : ℕ) (out : List Cell) (bytes : List ℕ)
    → length out ≤ cap
    → CellsFit cap (decode_loop fuel cap out bytes)
unfolding decode_loop
decode_loop-CellsFit fuel cap out [] h = h
decode_loop-CellsFit zero cap out (b ∷ bytes) h = tt
decode_loop-CellsFit (suc fuel) cap out (b ∷ bytes) h =
    let joined = join_bytes ((lead_byte b).1 - 1) (lead_byte b).0 bytes in
    let w = cp_width joined.0 in
    let longer = length-append out (char_cells joined.0 w) in
    let skipped = decode_loop-CellsFit fuel cap out joined.1 h in
    if_cases (CellsFit cap) (w == 0) (λ e. skipped)
      (λ e.
        if_cases (CellsFit cap) (ltb cap (length out + w)) (λ d. tt)
          (λ d.
            decode_loop-CellsFit fuel cap (out ++ char_cells joined.0 w) joined.1
              (drawn joined.0 d e)))
  where
    drawn :
        (cp : ℕ)
        → ltb cap (length out + cp_width cp) ≡ false
        → (cp_width cp == 0) ≡ false
        → length (out ++ char_cells cp (cp_width cp)) ≤ cap
    drawn cp d e =
        let n = length-cells_of_char cp in
        let same = cells_of_char-pos cp e in
        let longer = length-append out (cells_of_char cp) in rw (← same) (ground (arith, n, longer))

pub decode_text-length :
    (text : List ℕ) (cap : ℕ) {cells : List Cell}
    → decode_text text cap ≡ some cells
    → length cells ≤ cap
unfolding decode_text
decode_text-length text cap e =
    rw e at (decode_loop-CellsFit (length text) cap [] text (omega arith))

-- What `pull_lines` returns: a start of a line, with the rows from there on, which fit beside the
-- screen.
pub record IsPulled (b : Buffer ℕ) (tmp : Buffer Cell) (nr nc cut screen_rows pull hrows : ℕ)
    : Type 0 where
  pub inside : pull ≤ cut
  pub history : History b tmp nr nc cut pull hrows
  pub fits : (hrows ≡ 0) ⊎ (hrows + screen_rows ≤ nr)

newline_before : (b : Buffer ℕ) (p : ℕ) → StartsLine b (suc p) → b.at p ≡ b'\n'
newline_before b p h =
    let e : suc p - 1 ≡ p = omega arith in
    let newline : b.at (suc p - 1) ≡ b'\n' = ground (arith, h) in rw e at newline

pub pull_lines-IsPulled :
    (fuel : ℕ) (b : Buffer ℕ) (tmp : Buffer Cell) (nr nc cut screen_rows p hrows : ℕ)
    → cut ≤ b.size
    → tmp.size ≡ capacity nr nc
    → p ≤ fuel
    → StartsLine b p
    → IsPulled b tmp nr nc cut screen_rows p hrows
    → Safe
        (λ (r : ℕ × ℕ). IsPulled b tmp nr nc cut screen_rows r.0 r.1)
        (pull_lines fuel b tmp nr nc screen_rows p hrows)
unfolding pull_lines
pull_lines-IsPulled fuel b tmp nr nc cut screen_rows zero hrows h z f w i = safe i
pull_lines-IsPulled zero b tmp nr nc cut screen_rows (suc p) hrows h z f w i = absurd (omega arith)
pull_lines-IsPulled (suc fuel) b tmp nr nc cut screen_rows (suc p) hrows h z f w i =
    let inside : suc p ≤ cut = i.inside in
    Safe-bind (line_start-Safe b p (omega arith)) λ q t.
      let (lo, start, whole) = t in
      let (text, sliced, _) = Safe-some (slice-Safe b q (p - q) (omega arith)) in
      let newline : b.at p ≡ b'\n' = newline_before b p w in
      Safe-step _ sliced (elim (Option-cases (decode_text text (capacity nr nc))) [
        | inl e ↦ rw e (safe i)
        | inr (cells, e) ↦
            let few = decode_text-length text (capacity nr nc) e in
            let (rows, counted, _) =
              Safe-some
                (count_rows-Safe (with_cells tmp cells) 0 (length cells) nc (omega arith)) in
            rw e (
              Safe-step _ counted (
                Safe-if (ltb nr (hrows + rows + screen_rows)) (λ d. safe i)
                  (λ d.
                    pull_lines-IsPulled fuel b tmp nr nc cut screen_rows q (hrows + rows) h z
                      (omega arith) start
                      (record {
                        inside = omega arith;
                        history = line lo inside newline whole sliced e counted i.history;
                        fits = inr (ground arith);
                      }))))
      ])
