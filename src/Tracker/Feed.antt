-- ===== src/Tracker/Feed.antt =====
-- mirror-agent/tracker.go, TCPTracker.Feed. The tracker's lock is taken twice: `append_segment` and
-- `trim` are what happens under it, and the parsing stands between them.
pub mod Step
pub mod Accounting
use mirror_agent.Base.{
  ℕ, ◌+◌, Bool, true, false, not, ◌&&◌, Option, none, some, List, [], ◌∷◌, ◌++◌, map, ◌==◌, ltb,
  leb, if◌then◌else◌, Bytes, length, take, drop,
}
use mirror_agent.Go.Panic.{Run, returned, panicked, ◌>>=◌}
use mirror_agent.Stats.{Stats}
use mirror_agent.Event.{PktEvent, ip_str}
use mirror_agent.Tracker.Request.{CapturedRequest}
use mirror_agent.Tracker.Batch.{
  Batch, Stop, starved, failed, crashed, exhausted, parse_http_requests,
}
use mirror_agent.Tracker.Streams.{StreamKey, Stream, Streams, find, put, delete}
use mirror_agent.Tracker.Segment.{looks_like_http, looks_like_continuation}

-- The tracker, with the counters of agentStats that it adds to.
pub record Tracker : Type 0 where
  pub streams : Streams
  pub stats : Stats

abbrev pub key_of : PktEvent → StreamKey
key_of ev = record {
  src_ip = ev.src_ip;
  dst_ip = ev.dst_ip;
  src_port = ev.src_port;
  dst_port = ev.dst_port;
}

-- ev.Payload[:ev.PayloadLen] panics past the end of the array.
unfoldable pub payload_of : PktEvent → Run Bytes
payload_of ev =
    if ltb (length ev.payload) ev.payload_len
    then panicked
    else returned (take ev.payload_len ev.payload)

-- Payloads that look like neither a request nor its continuation are dropped.
unfoldable pub is_kept : Bytes → Bool
is_kept s = not (not (looks_like_http s) && not (looks_like_continuation s))

abbrev pub buffered : Option Stream → Bytes
buffered none = []
buffered (some s) = s.buf

-- Under the lock: the stream of the key, a new one if there is none, takes the segment.
unfoldable pub append_segment : Streams → ℕ → StreamKey → Bytes → Streams
append_segment m now key segment =
    put m key (record { buf = buffered (find m key) ++ segment; last_seen = now })

-- `remaining` goes into the stream that the map still has: with none, the nil pointer is a panic.
abbrev pub refill : Streams → StreamKey → Bytes → Option Stream → Run Streams
refill m key remaining none = panicked
refill m key remaining (some s) = returned (put m key (record s { buf = remaining }))

-- Under the lock again: what was consumed goes, and the stream too if nothing is left of it.
unfoldable pub trim : Streams → StreamKey → Bytes → ℕ → Run Streams
trim m key snapshot consumed =
    if leb (length snapshot) consumed
    then returned (delete m key)
    else refill m key (drop consumed snapshot) (find m key)

abbrev pub count_error : Stop → Stats → Stats
count_error failed s = record s { parse_errors = s.parse_errors + 1 }
count_error starved s = s
count_error crashed s = s
count_error exhausted s = s

abbrev pub assembled : ℕ → Stats → Stats
assembled n s = record s { reqs_assembled = s.reqs_assembled + n }

abbrev pub with_source : ℕ → CapturedRequest → CapturedRequest
with_source ip r = record r { src_ip = ip_str ip }

-- What Feed does with the answer of parseHTTPRequests.
unfoldable pub deliver :
    Tracker → StreamKey → Bytes → List CapturedRequest → ℕ → Run (Tracker × List CapturedRequest)
unfolding trim
deliver t key snapshot [] consumed = returned (t, [])
deliver t key snapshot (r ∷ rs) consumed = do
  m ← trim t.streams key snapshot consumed
  returned (
    (record { streams = m; stats = assembled (length (r ∷ rs)) t.stats }),
    map (with_source key.src_ip) (r ∷ rs),
  )

-- On why the parser stopped: a panic ends the process, an error is counted.
unfoldable pub assemble_on :
    Stop
    → Tracker
    → StreamKey
    → Bytes
    → List CapturedRequest
    → ℕ
    → Run (Tracker × List CapturedRequest)
unfolding deliver
assemble_on crashed t key snapshot rs consumed = panicked
assemble_on why t key snapshot rs consumed =
    deliver (record t { stats = count_error why t.stats }) key snapshot rs consumed

unfoldable pub assemble : Tracker → StreamKey → Bytes → Batch → Run (Tracker × List CapturedRequest)
unfolding assemble_on
assemble t key snapshot b = assemble_on b.stop t key snapshot b.requests b.consumed

abbrev pub dropped : Tracker → Tracker
dropped t = record t { stats = record t.stats { packets_dropped = t.stats.packets_dropped + 1 } }

unfoldable pub feed_segment : Tracker → ℕ → StreamKey → Bytes → Run (Tracker × List CapturedRequest)
unfolding assemble append_segment
feed_segment t now key segment =
    if is_kept segment
    then (let m = append_segment t.streams now key segment in
        let snapshot = buffered (find m key) in
        assemble (record t { streams = m }) key snapshot (parse_http_requests snapshot))
    else returned (dropped t, [])

abbrev pub received_stats : Stats → Stats
received_stats s = record s { packets_received = s.packets_received + 1 }

abbrev pub received : Tracker → Tracker
received t = record t { stats = received_stats t.stats }

unfoldable pub feed : Tracker → ℕ → PktEvent → Run (Tracker × List CapturedRequest)
unfolding feed_segment payload_of
feed t now ev =
    if ev.payload_len == 0
    then returned (received t, [])
    else (do segment ← payload_of ev; feed_segment (received t) now (key_of ev) segment)
