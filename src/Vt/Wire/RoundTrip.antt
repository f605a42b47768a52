-- ===== src/Vt/Wire/RoundTrip.antt =====
-- A terminal that is serialized is restored (_lib/vt.c, vt_serialize and vt_deserialize), but for the
-- flags of its rows, its scrollback and the character that REP repeats, which are not on the wire.
use u.Common.{Safe-step, ℕ, ◌≡◌, refl, ap, Option, none, some, List, ◌>>=◌, Safe, safe, Safe-bind}
use u.Vt.Types.{Grid, Screen, VtParser, vt_max_osc}
use u.Vt.Cells.{alloc_cells}
use u.Vt.Safety.{IsValid, ParserValid}
use u.Vt.Wire.{state_number, get_le, put_vt_wire, put_array, put_screen_wire}
use u.Vt.Wire.Numbers.{get_array-put_array}
use u.Vt.Wire.Structs.{get_vt_wire-put_vt_wire, get_screen_wire-put_screen_wire}
use u.Vt.Wire.Grids.{GridFits}
use u.Vt.Wire.Represent.{
  IsRepresentable, vt_wire, vt_wire_of-some, vt_wire-fits, screen_wire-fits,
  to_vt_state-state_number, array_of-elements, array_fits,
}
use u.Vt.Wire.Serial.{screen_wire_of, vt_serialize, vt_deserialize}
use u.Vt.Wire.Rows.{elements, put_rows, get_rows, get_alt}
use u.Vt.Wire.Restored.{fresh-lem, restore_parser-Started, Restored}
use u.Vt.Wire.Reread.{put_grid-some, grid_read, fresh_size, alt_read, AltWire, GridRead, AltRead}

alt_sizes :
    (s : Screen)
    → IsValid s
    → (g : Grid) → s.alt_cells ≡ some g
    → (g.height ≡ s.rows) × (g.width ≡ s.cols)
alt_sizes s v g e = rw e at v.alt_fit

-- The cells and the alternate grid, read back into a parser that `make` builds of them.
grids_read :
    (p : VtParser) (rest after : List ℕ) (rows cols : ℕ) (old : Grid) (old_alt : Option Grid)
    → (make : Grid → Option Grid → VtParser) → rows ≡ p.scr.rows
    → cols ≡ p.scr.cols
    → old ≡ alloc_cells p.scr.rows p.scr.cols
    → old_alt ≡ none
    → GridFits p.scr.cells p.scr.rows p.scr.cols
    → AltWire p.scr.alt_cells p.scr.rows p.scr.cols rest after
    → ((g : Grid) (alt : Option Grid)
        → GridRead p.scr.cells g p.scr.rows p.scr.cols
        → AltRead p.scr.alt_cells alt p.scr.rows p.scr.cols
        → Restored p (make g alt))
    → Safe
        (λ (x : VtParser × List ℕ). (x.1 ≡ rest) × Restored p x.0)
        (get_rows cols 0 rows old (put_rows p.scr.cells p.scr.cols 0 p.scr.rows after) >>= λ x.
          get_le 1 x.1 >>= λ y. get_alt y.0 old_alt rows cols y.1 >>= λ z. some (make x.0 z.0, z.1))
grids_read p rest after rows cols old old_alt make er ec eo ea fits a build =
    let size = fresh_size p.scr.rows p.scr.cols in
    let (g, e, u) =
      grid_read p.scr.cells (alloc_cells p.scr.rows p.scr.cols) p.scr.rows p.scr.cols after fits
        size.0 size.1 in
    rw (er, ec, eo, ea)
      (Safe-step _ e (
        Safe-step _ a.flag_read
          (Safe-step _ a.grid_read_back (safe (refl, build g a.alt u a.same)))))

-- The bytes of a terminal, read back.
restores :
    (p : VtParser) (rest after : List ℕ)
    → ParserValid p
    → IsRepresentable p
    → AltWire p.scr.alt_cells p.scr.rows p.scr.cols rest after
    → Safe
        (λ (x : VtParser × List ℕ). (x.1 ≡ rest) × Restored p x.0)
        (vt_deserialize (
          put_vt_wire (vt_wire p) (
            put_array 1 (elements p.osc.at 0 vt_max_osc) (
              put_screen_wire
                (screen_wire_of p.scr)
                (put_rows p.scr.cells p.scr.cols 0 p.scr.rows after)))))
unfolding vt_deserialize screen_wire_of vt_wire state_number
restores p rest after v r a =
    Safe-step _ (get_vt_wire-put_vt_wire (vt_wire p) _ (vt_wire-fits p v r)) (
      Safe-step _ (get_array-put_array 1 vt_max_osc _ _ (array_fits 1 vt_max_osc p.osc.at r.osc)) (
        Safe-step _
          (get_screen_wire-put_screen_wire (screen_wire_of p.scr) _ (screen_wire-fits p v r))
          (Safe-bind (fresh-lem p.scr.rows p.scr.cols v.screen.rows_pos v.screen.cols_min) λ f w.
            Safe-step _ (to_vt_state-state_number p.state) (
              Safe-bind (restore_parser-Started p f v r w.0.0 w.0.1 w.1) λ q u.
                grids_read p rest after q.scr.rows q.scr.cols q.scr.cells q.scr.alt_cells
                  (λ g alt. record q { scr = record q.scr { cells = g; alt_cells = alt } })
                  (ap (λ s. s.rows) u.0) (ap (λ s. s.cols) u.0) (ap (λ s. s.cells) u.0)
                  (ap (λ s. s.alt_cells) u.0) r.cells a u.1))))

-- Serializing a well-formed terminal succeeds, and deserializing its bytes, with any others behind
-- them, gives back a well-formed terminal with the same parser, modes, cursors, title and cells, and
-- leaves the other bytes. The flags of the rows, the scrollback and the character that REP repeats
-- are those of a fresh terminal. The numbers of the terminal must fit their C types.
pub vt_deserialize-vt_serialize :
    (p : VtParser) (rest : List ℕ)
    → ParserValid p
    → IsRepresentable p
    → Safe
        (λ bytes.
          Safe (λ (x : VtParser × List ℕ). (x.1 ≡ rest) × Restored p x.0) (vt_deserialize bytes))
        (vt_serialize p rest)
unfolding vt_serialize ◌>>=◌
vt_deserialize-vt_serialize p rest v r =
    rw (vt_wire_of-some p v, array_of-elements p.osc vt_max_osc v.osc_size)
      (Safe-bind
        (alt_read p.scr.alt_cells p.scr.rows p.scr.cols rest r.alt_cells (alt_sizes p.scr v.screen))
        λ after a.
          rw
            (put_grid-some p.scr.cells p.scr.rows p.scr.cols after v.screen.height_eq
              v.screen.width_eq)
            (safe (restores p rest after v r a)))
