-- ===== src/Tracker/Live.antt =====
-- The tracker as main runs it: Feed on one event after the other, the requests handed on to Send, and
-- between them the ticks of the reaper that NewTCPTracker starts. (A Feed takes place between two ticks
-- here; Agent/Machine has the ticks that fall into one.)
pub mod Stamped
pub mod Streaming
use mirror_agent.Base.{
  ℕ, ◌+◌, ◌*◌, ◌^◌, ◌≤◌, Bool, ◌&&◌, not, List, [], ◌∷◌, ◌++◌, ◌≡◌, ◌⊎◌, ◌==◌, if◌then◌else◌, Bytes,
  take,
}
use mirror_agent.Go.Panic.{Run, returned, ◌>>=◌}
use mirror_agent.Event.{PktEvent}
use mirror_agent.Tracker.Batch.Append.{leftover}
use mirror_agent.Tracker.Streams.{StreamKey, key_eq}
use mirror_agent.Tracker.Feed.{Tracker, key_of, is_kept, feed}
use mirror_agent.Tracker.Trace.{Arrival, Sent, Sends, after, tag, contribution}
use mirror_agent.Tracker.Reaper.{reap}

-- What happens to a tracker: Feed on an event, or a tick of the reaper, each at its time.
pub data Happening : Type 0 where
  fed : ℕ → PktEvent → Happening
  ticked : ℕ → Happening

abbrev pub arrivals_of : List Happening → List Arrival
arrivals_of [] = []
arrivals_of (fed now ev ∷ hs) = record { now = now; event = ev } ∷ arrivals_of hs
arrivals_of (ticked now ∷ hs) = arrivals_of hs

unfoldable pub live : Sends → Tracker → List Happening → Run (Tracker × Sent)
live sends t [] = returned (t, [])
live sends t (fed now ev ∷ hs) = do
  (u, reqs) ← feed t now ev
  (v, sent) ← live sends (after sends u reqs) hs
  returned (v, tag (key_of ev) reqs ++ sent)
live sends t (ticked now ∷ hs) = live sends (reap t now) hs

-- The event has a segment of the stream that Feed keeps.
abbrev pub brings : StreamKey → PktEvent → Bool
brings k ev =
    key_eq (key_of ev) k && not (ev.payload_len == 0) && is_kept (take ev.payload_len ev.payload)

-- No tick finds an unfinished request of the stream whose last segment is more than ten seconds old:
-- `seen` is when that was, and `waiting` what of the stream is in no complete request yet.
unfoldable pub IsInTime : StreamKey → ℕ → Bytes → List Happening → Type 0
IsInTime k seen waiting [] = Unit
IsInTime k seen waiting (fed now ev ∷ hs) =
    IsInTime k (if brings k ev then now else seen) (leftover (waiting ++ contribution k ev)) hs
IsInTime k seen waiting (ticked now ∷ hs) =
    ((waiting ≡ []) ⊎ (now ≤ seen + 10 * 10 ^ 9)) × IsInTime k seen waiting hs
