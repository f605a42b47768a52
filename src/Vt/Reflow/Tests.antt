-- ===== src/Vt/Reflow/Tests.antt =====
-- The pieces of a reflow (_lib/vt.c) at concrete inputs.
use u.Common.{
  ℕ, ◌≡◌, ◌>>=◌, refl, [], ◌∷◌, true, none, some, ltb, if◌then◌else◌, length, arith, Safe,
}
use u.Common.Buffer.{Buffer, filled, read}
use u.Vt.Types.{Cell, cell_wide, cell_wide_cont}
use u.Vt.Cells.{alloc_cells, fresh_cell}
use u.Vt.Utf8.RoundTrip.{encode_all}
use u.Vt.Samples.{small, small-IsValid, parser, parser-ParserValid}
use u.Vt.Safety.{ParserValid}
use u.Vt.Init.{vt_start}
use u.Vt.Life.{feed, resize, run_events, run_events-vt_start-Safe}
use u.Vt.Reflow.Commit.{vt_resize}
use u.Vt.Reflow.Commit.Resized.{IsResized, vt_resize-Safe}
use u.Vt.Reflow.Gather.{gather_lines}
use u.Vt.Reflow.Gather.Bounds.{IsGathered, gather_lines-IsGathered}
use u.Vt.Reflow.{count_rows, lay_rows, Target, decode_text, lay_count, cell_width}
use u.Vt.Reflow.Layout.{TargetFits, lay_rows-Fits}
use u.Vt.Reflow.Decode.{cells_of, decode_text-encode_all}

-- A wide character, as its pair of cells, then three narrow ones, in an array of seven cells.
abbrev five_cells : Buffer Cell
five_cells = record {
  size = 7;
  at = λ i.
      if ltb i 1
      then record fresh_cell { ch = 0x4E00; flags = cell_wide }
      else (if ltb i 2 then record fresh_cell { flags = cell_wide_cont } else fresh_cell);
}

abbrev three_rows : Target
three_rows = record { tg = alloc_cells 3 2; tf = filled 3 0 }

three_counted : count_rows five_cells 0 5 2 ≡ some 3
unfolding count_rows lay_count cell_width ◌>>=◌ read
three_counted = refl

three_rows-TargetFits : TargetFits 2 3 three_rows
unfolding alloc_cells
three_rows-TargetFits = omega arith

lay_rows-Fits_example :
    Safe
      (λ (o : Target × ℕ). TargetFits 2 3 o.0 × (o.1 ≡ 3))
      (lay_rows five_cells 0 5 2 three_rows 0)
lay_rows-Fits_example =
    lay_rows-Fits five_cells 0 5 2 three_rows 0 3 3 (omega arith) (omega arith) three_counted
      (omega arith) three_rows-TargetFits

decode_text-encode_all_example : decode_text (encode_all (0x41 ∷ 0x4E00 ∷ 0x200D ∷ [])) 3 ≡ (
    if ltb 3 (length (cells_of (0x41 ∷ 0x4E00 ∷ 0x200D ∷ [])))
    then none
    else some (cells_of (0x41 ∷ 0x4E00 ∷ 0x200D ∷ [])))
decode_text-encode_all_example =
    decode_text-encode_all (0x41 ∷ 0x4E00 ∷ 0x200D ∷ []) 3 (omega arith)

gather_lines-IsGathered_example :
    Safe (IsGathered small 3) (gather_lines small (filled 14 fresh_cell))
gather_lines-IsGathered_example =
    gather_lines-IsGathered small (filled 14 fresh_cell) small-IsValid (omega arith)

-- Narrower and taller: the line of the scrollback is taken back.
vt_resize-Safe_example : Safe (IsResized parser 5 3) (vt_resize (λ i. fresh_cell) parser 5 3)
vt_resize-Safe_example =
    vt_resize-Safe (λ i. fresh_cell) parser 5 3 parser-ParserValid (omega arith) (omega arith)

run_events-vt_start-Safe_example : Safe ParserValid (do
  p ← vt_start true 3 4
  run_events p (feed (b'a' ∷ 0x0A ∷ []) ∷ resize (λ i. fresh_cell) 2 7 ∷ feed (b'b' ∷ []) ∷ []))
run_events-vt_start-Safe_example =
    run_events-vt_start-Safe true 3 4
      (feed (b'a' ∷ 0x0A ∷ []) ∷ resize (λ i. fresh_cell) 2 7 ∷ feed (b'b' ∷ []) ∷ []) (omega arith)
      (omega arith) (omega arith)
