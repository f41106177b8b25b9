-- ===== src/Tracker/Reaper.antt =====
-- mirror-agent/tracker.go, reaper: one tick of it, which runs under the tracker's lock.
pub mod Laws
pub mod Race
use mirror_agent.Base.{ℕ, ◌+◌, ◌*◌, ◌^◌, Bool, List, [], ◌∷◌, ltb, if◌then◌else◌, Bytes, length}
use mirror_agent.Stats.{Stats}
use mirror_agent.Tracker.Streams.{StreamKey, Stream, Streams}
use mirror_agent.Tracker.Feed.{Tracker}

-- Ten seconds.
abbrev pub window : ℕ
window = 10 * 10 ^ 9

-- s.lastSeen.Before(time.Now().Add(-10 * time.Second)), with nothing subtracted.
abbrev pub is_stale : ℕ → Stream → Bool
is_stale now s = ltb (s.last_seen + window) now

-- The streams that stay. (Deleting from a Go map while ranging over it is allowed.)
unfoldable pub fresh : ℕ → Streams → Streams
fresh now [] = []
fresh now ((k, s) ∷ m) = let rest = fresh now m in if is_stale now s then rest else (k, s) ∷ rest

-- The streams that go, each with a warning in the log.
unfoldable pub stale : ℕ → Streams → Streams
stale now [] = []
stale now ((k, s) ∷ m) = let rest = stale now m in if is_stale now s then (k, s) ∷ rest else rest

unfoldable pub reap : Tracker → ℕ → Tracker
unfolding fresh stale
reap t now = record {
  streams = fresh now t.streams;
  stats = record t.stats { streams_reaped = t.stats.streams_reaped + length (stale now t.streams) };
}
