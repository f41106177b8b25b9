-- ===== src/Tracker/Streams.antt =====
-- mirror-agent/tracker.go: streamKey, stream, and the map `streams` of a TCPTracker.
pub mod Laws
use mirror_agent.Base.{ℕ, Bool, ◌&&◌, Option, none, some, List, [], ◌∷◌, ◌==◌, if◌then◌else◌, Bytes}

pub record StreamKey : Type 0 where
  pub src_ip : ℕ
  pub dst_ip : ℕ
  pub src_port : ℕ
  pub dst_port : ℕ

-- `buf` is what the bytes.Buffer holds; `last_seen` is in nanoseconds.
pub record Stream : Type 0 where
  pub buf : Bytes
  pub last_seen : ℕ

unfoldable pub key_eq : StreamKey → StreamKey → Bool
key_eq a b =
    a.src_ip == b.src_ip
    && a.dst_ip == b.dst_ip
    && a.src_port == b.src_port
    && a.dst_port == b.dst_port

abbrev pub Streams : Type 0
Streams = List (StreamKey × Stream)

unfoldable pub find : Streams → StreamKey → Option Stream
find [] k = none
find ((j, s) ∷ m) k = if key_eq j k then some s else find m k

-- m[k] = s
unfoldable pub put : Streams → StreamKey → Stream → Streams
put [] k s = (k, s) ∷ []
put ((j, r) ∷ m) k s = if key_eq j k then (j, s) ∷ m else (j, r) ∷ put m k s

-- delete(m, k)
unfoldable pub delete : Streams → StreamKey → Streams
delete [] k = []
delete ((j, r) ∷ m) k = let rest = delete m k in if key_eq j k then rest else (j, r) ∷ rest
