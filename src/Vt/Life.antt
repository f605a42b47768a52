-- ===== src/Vt/Life.antt =====
-- The life of a terminal (_lib/vt.c, as tmux/session.c and tmux/main.c drive it): it is started, and
-- then fed what the program writes and resized as the window is, in any order.
use u.Common.{
  ℕ, Bool, ◌≤◌, Option, some, List, [], ◌∷◌, ◌>>=◌, All, Safe, safe, Safe-bind, Safe-mono,
}
use u.Vt.Types.{Cell, VtParser}
use u.Vt.Init.{vt_start}
use u.Vt.Feed.{vt_feed}
use u.Vt.Reflow.Commit.{vt_resize}
use u.Vt.Safety.{ParserValid}
use u.Vt.Safety.Feed.{vt_feed-Safe}
use u.Vt.Safety.Escape.{vt_start-Safe}
use u.Vt.Reflow.Commit.Resized.{vt_resize-Safe}

-- A call on the terminal. A resize comes with what malloc gives it.
pub data Event : Type 0 where
  feed : List ℕ → Event
  resize : (ℕ → Cell) → ℕ → ℕ → Event

unfoldable pub step : VtParser → Event → Option VtParser
step p (Event.feed bytes) = vt_feed p bytes
step p (Event.resize junk rows cols) = vt_resize junk p rows cols

unfoldable pub run_events : VtParser → List Event → Option VtParser
run_events p [] = some p
run_events p (e ∷ es) = do p' ← step p e; run_events p' es

-- A resize is to one row and two columns at least.
abbrev pub EventFits : Event → Type 0
EventFits (Event.feed bytes) = Unit
EventFits (Event.resize junk rows cols) = (1 ≤ rows) × (2 ≤ cols)

step-Safe : (p : VtParser) (e : Event) → ParserValid p → EventFits e → Safe ParserValid (step p e)
unfolding step
step-Safe p (Event.feed bytes) v h = vt_feed-Safe p bytes v
step-Safe p (Event.resize junk rows cols) v h =
    Safe-mono (vt_resize-Safe junk p rows cols v h.0 h.1) λ q w. w.valid

run_events-Safe :
    (p : VtParser) (es : List Event)
    → ParserValid p
    → All EventFits es
    → Safe ParserValid (run_events p es)
unfolding run_events
run_events-Safe p [] v h = safe v
run_events-Safe p (e ∷ es) v h = Safe-bind (step-Safe p e v h.0) λ q w. run_events-Safe q es w h.1

-- A terminal that is started with at least one row and two columns, with a scrollback or without,
-- and then fed any bytes and resized to at least one row and two columns any number of times, in any
-- order, never makes an access outside an array and is well-formed in the end.
pub run_events-vt_start-Safe :
    (history : Bool) (rows cols : ℕ) (es : List Event)
    → 1 ≤ rows
    → 2 ≤ cols
    → All EventFits es
    → Safe ParserValid (do p ← vt_start history rows cols; run_events p es)
run_events-vt_start-Safe history rows cols es h k f =
    Safe-bind (vt_start-Safe history rows cols h k) λ p v. run_events-Safe p es v.0 f
