-- ===== src/Vt/Tests.antt =====
-- The parser of _lib/vt.c at concrete inputs, and the theorems about it at screens that meet their
-- hypotheses.
use u.Common.{ℕ, List, ◌≡◌, refl, true, none, [], ◌∷◌, ◌>>=◌, arith, Safe}
use u.Vt.Types.{Screen, VtParser}
use u.Vt.Cells.{alloc_cells, blank_cell, clear_row_range}
use u.Vt.Cells.Contents.{Cleared, clear_row_range-Cleared}
use u.Vt.Init.{scr_init}
use u.Vt.Scroll.{scroll_up}
use u.Vt.Scroll.Contents.{ScrolledUp, scroll_up-ScrolledUp}
use u.Vt.Scrollback.{scrollback_capture}
use u.Vt.Put.{put_wide}
use u.Vt.Put.Narrow.{IsNarrow, put_wide-faults}
use u.Vt.Sgr.{handle_sgr}
use u.Vt.Csi.Private.{alt_on, alt_off}
use u.Vt.Csi.AltScreen.{SamePrimary, alt_round_trip}
use u.Vt.Utf8.RoundTrip.{between, Reads, encode_all, run-encode_all}
use u.Vt.Feed.{vt_feed}
use u.Vt.Samples.{small, small-IsValid, parser, parser-ParserValid, parser-IsRepresentable}
use u.Vt.Wire.Restored.{Restored}
use u.Vt.Wire.Serial.{vt_serialize, vt_deserialize}
use u.Vt.Wire.RoundTrip.{vt_deserialize-vt_serialize}
use u.Vt.Wire.Transfer.{
  Answer, moved, interrupted, finished, never_fails, moves, write_all, write_all_finishes,
}
use u.Vt.Safety.{ParserValid}
use u.Vt.Safety.Capture.{OnlyText, scrollback_capture-Safe}
use u.Vt.Safety.Scroll.{Scrolled, scroll_up-Safe}
use u.Vt.Safety.Sgr.{Coloured, handle_sgr-Safe}
use u.Vt.Safety.Feed.{vt_feed-Safe}
use u.Vt.Resize.{vt_resize_plain}
use u.Vt.Safety.Resize.{ResizedGrid, vt_resize_plain-Safe}

vt_feed-Safe_example : Safe ParserValid (vt_feed parser (0x82 ∷ 0xAC ∷ 0x1b ∷ b'[' ∷ b'J' ∷ []))
vt_feed-Safe_example =
    vt_feed-Safe parser (0x82 ∷ 0xAC ∷ 0x1b ∷ b'[' ∷ b'J' ∷ []) parser-ParserValid

run-encode_all_example :
    Reads
      (between (λ i. 0) 0)
      (encode_all (0x41 ∷ 0x20AC ∷ 0x1F600 ∷ []))
      (0x41 ∷ 0x20AC ∷ 0x1F600 ∷ [])
run-encode_all_example =
    run-encode_all (between (λ i. 0) 0) (0x41 ∷ 0x20AC ∷ 0x1F600 ∷ []) (omega arith) (omega arith)

scroll_up-ScrolledUp_example : Safe (ScrolledUp small 2) (scroll_up small 2)
scroll_up-ScrolledUp_example =
    scroll_up-ScrolledUp small 2 small-IsValid (omega arith) (omega arith)

scroll_up-Safe_example : Safe (Scrolled small) (scroll_up small 2)
scroll_up-Safe_example = scroll_up-Safe small 2 small-IsValid

alt_round_trip_example : Safe (SamePrimary small) (alt_on small >>= alt_off)
alt_round_trip_example = alt_round_trip small small-IsValid refl

scrollback_capture-Safe_example : Safe (OnlyText small) (scrollback_capture small small.cells 1 0)
scrollback_capture-Safe_example =
    scrollback_capture-Safe small small.cells 1 0 (omega arith) (omega arith) (omega arith)

handle_sgr-Safe_example :
    Safe
      (λ q. ParserValid q × (q ≡ record parser { scr = q.scr }) × Coloured small q.scr)
      (handle_sgr parser)
handle_sgr-Safe_example = handle_sgr-Safe parser parser-ParserValid

clear_row_range-Cleared_example :
    Safe (Cleared (blank_cell small) small.cells 1 1 3) (clear_row_range small small.cells 1 1 2)
clear_row_range-Cleared_example =
    clear_row_range-Cleared small small.cells 1 1 2 (omega arith) (omega arith) (omega arith)

-- A fresh screen of two rows and one column, in insert mode.
abbrev narrow : Screen
narrow = record (scr_init 2 1 true) { insert_mode = true }

narrow-IsNarrow : IsNarrow narrow
unfolding scr_init alloc_cells
narrow-IsNarrow = ground arith

put_wide-faults_example : put_wide narrow 0x4E2D 2 ≡ none
put_wide-faults_example = put_wide-faults narrow 0x4E2D narrow-IsNarrow

vt_resize_plain-Safe_example :
    Safe
      (λ q.
        ParserValid q
        × (q.scr.rows ≡ 2)
        × (q.scr.cols ≡ 7)
        × ResizedGrid parser.scr.cells q.scr.cells 2 7)
      (vt_resize_plain parser 2 7)
vt_resize_plain-Safe_example =
    vt_resize_plain-Safe parser 2 7 parser-ParserValid (omega arith) (omega arith)

vt_deserialize-vt_serialize_example :
    Safe
      (λ bytes.
        Safe
          (λ (x : VtParser × List ℕ). (x.1 ≡ 7 ∷ []) × Restored parser x.0)
          (vt_deserialize bytes))
      (vt_serialize parser (7 ∷ []))
vt_deserialize-vt_serialize_example =
    vt_deserialize-vt_serialize parser (7 ∷ []) parser-ParserValid parser-IsRepresentable

-- Two bytes go out, the next call is interrupted, and the last byte follows.
abbrev answers : List Answer
answers = moved 2 ∷ interrupted ∷ moved 1 ∷ moved 1 ∷ []

write_all_finishes_example :
    ((write_all answers [] (1 ∷ 2 ∷ 3 ∷ [])).outcome ≡ finished)
    × ((write_all answers [] (1 ∷ 2 ∷ 3 ∷ [])).out ≡ 1 ∷ 2 ∷ 3 ∷ [])
write_all_finishes_example =
    write_all_finishes answers (1 ∷ 2 ∷ 3 ∷ []) (unfold never_fails in refl)
      (unfold moves in omega arith)
