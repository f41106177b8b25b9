-- ===== src/Tracker/Trace.antt =====
-- The callback of main.go's ReadEvents over a sequence of events: Feed after Feed, and the requests
-- handed on to Send, each with the stream that it came from. (The reaper is not among these steps.)
pub mod Advance
pub mod Streaming
use mirror_agent.Base.{
  ℕ, Bool, true, false, ◌&&◌, not, List, [], ◌∷◌, ◌++◌, map, ◌==◌, ltb, if◌then◌else◌, Bytes,
  length, take,
}
use mirror_agent.Go.Panic.{Run, returned, panicked, ◌>>=◌}
use mirror_agent.Stats.{Stats}
use mirror_agent.Event.{PktEvent}
use mirror_agent.Tracker.Request.{CapturedRequest}
use mirror_agent.Tracker.Streams.{StreamKey, key_eq}
use mirror_agent.Tracker.Feed.{Tracker, key_of, is_kept, feed}

pub record Arrival : Type 0 where
  pub now : ℕ
  pub event : PktEvent

abbrev pub Sent : Type 0
Sent = List (StreamKey × CapturedRequest)

unfoldable pub tag : StreamKey → List CapturedRequest → Sent
tag k [] = []
tag k (r ∷ rs) = (k, r) ∷ tag k rs

-- What the Sends of the requests do to the counters; they touch nothing else of the agent.
abbrev pub Sends : Type 0
Sends = Stats → List CapturedRequest → Stats

abbrev pub after : Sends → Tracker → List CapturedRequest → Tracker
after sends t reqs = record t { stats = sends t.stats reqs }

unfoldable pub feed_all : Sends → Tracker → List Arrival → Run (Tracker × Sent)
unfolding tag
feed_all sends t [] = returned (t, [])
feed_all sends t (a ∷ rest) = do
  (u, reqs) ← feed t a.now a.event
  (v, sent) ← feed_all sends (after sends u reqs) rest
  returned (v, tag (key_of a.event) reqs ++ sent)

-- The requests of one stream among those handed on, in order.
unfoldable pub of_stream : StreamKey → Sent → List CapturedRequest
of_stream k [] = []
of_stream k ((j, r) ∷ sent) = let rest = of_stream k sent in if key_eq j k then r ∷ rest else rest

-- What an event adds to a stream: its payload, if it is the stream's and is kept.
unfoldable pub contribution : StreamKey → PktEvent → Bytes
contribution k ev =
    let segment = take ev.payload_len ev.payload in
    if key_eq (key_of ev) k && not (ev.payload_len == 0) && is_kept segment then segment else []

unfoldable pub history : StreamKey → List Arrival → Bytes
unfolding contribution
history k [] = []
history k (a ∷ rest) = contribution k a.event ++ history k rest
