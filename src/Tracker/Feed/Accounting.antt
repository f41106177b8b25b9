-- ===== src/Tracker/Feed/Accounting.antt =====
-- What Feed adds to the counters.
use mirror_agent.Base.{
  ℕ, ◌+◌, true, false, ◌++◌, if◌then◌else◌, List, [], ◌∷◌, map, ◌≡◌, refl, arith, ◌==◌, ltb, inl,
  inr, Bool-cases, take, Bytes, length,
}
use mirror_agent.Go.Panic.{returned}
use mirror_agent.Event.{PktEvent}
use mirror_agent.Stats.{Stats}
use mirror_agent.Tracker.Request.{CapturedRequest}
use mirror_agent.Tracker.Batch.{Stop, starved, failed, crashed, exhausted, parse_http_requests}
use mirror_agent.Tracker.Streams.{StreamKey, Streams, find}
use mirror_agent.Tracker.Feed.Step.{buffer, append_segment-Leaves}
use mirror_agent.Tracker.Feed.{
  Tracker, key_of, with_source, received_stats, received, count_error, assembled, append_segment,
  buffered, is_kept, deliver, assemble_on, assemble, feed_segment, feed, payload_of,
}

-- What the four counters of Feed have grown by; the others stay.
pub record Counts (a : Stats) (events drops errors requests : ℕ) (b : Stats) : Type 0 where
  pub received_is : b.packets_received ≡ a.packets_received + events
  pub assembled_is : b.reqs_assembled ≡ a.reqs_assembled + requests
  pub dropped_is : b.packets_dropped ≡ a.packets_dropped + drops
  pub errors_are : b.parse_errors ≡ a.parse_errors + errors
  pub reaped_same : b.streams_reaped ≡ a.streams_reaped
  pub skipped_same : b.mirrors_skipped ≡ a.mirrors_skipped
  pub sent_same : b.mirrors_sent ≡ a.mirrors_sent
  pub answers_same :
      (b.mirrors_2xx ≡ a.mirrors_2xx)
      × (b.mirrors_4xx ≡ a.mirrors_4xx)
      × (b.mirrors_5xx ≡ a.mirrors_5xx)
      × (b.mirrors_error ≡ a.mirrors_error)

-- The segment of an event that carries one.
abbrev pub segment_of : PktEvent → Bytes
segment_of ev = take ev.payload_len ev.payload

-- A payload that looks like no HTTP is dropped.
abbrev pub drops_of : PktEvent → ℕ
drops_of ev = if ev.payload_len == 0 then 0 else if is_kept (segment_of ev) then 0 else 1

abbrev pub error_of : Stop → ℕ
error_of failed = 1
error_of _ = 0

-- Bytes that the parser reports as malformed are an error, once for each segment that it is run on.
abbrev pub errors_of : Streams → PktEvent → ℕ
errors_of m ev =
    if ev.payload_len == 0
    then 0
    else if is_kept (segment_of ev)
    then error_of (parse_http_requests (buffer m (key_of ev) ++ segment_of ev)).stop
    else 0

pub length-map {ℓ κ} :
    {A : Type ℓ} {B : Type κ} (f : A → B) (xs : List A) → length (map f xs) ≡ length xs
length-map f [] = refl
length-map f (x ∷ xs) = omega (arith, length-map f xs)

stats-deliver :
    (t : Tracker) (k : StreamKey) (s : Bytes) (rs : List CapturedRequest) (n : ℕ) {u : Tracker}
    {reqs : List CapturedRequest}
    → deliver t k s rs n ≡ returned (u, reqs)
    → u.stats ≡ assembled (length reqs) t.stats
unfolding deliver
stats-deliver t k s [] n e = ground arith
stats-deliver t k s (r ∷ rs) n e = ground (arith, length-map (with_source k.src_ip) rs)

stats-assemble_on :
    (why : Stop) (t : Tracker) (k : StreamKey) (s : Bytes) (rs : List CapturedRequest) (n : ℕ)
    {u : Tracker} {reqs : List CapturedRequest}
    → assemble_on why t k s rs n ≡ returned (u, reqs)
    → u.stats ≡ assembled (length reqs) (count_error why t.stats)
unfolding assemble_on
stats-assemble_on crashed t k s rs n e = cc
stats-assemble_on starved t k s rs n e = stats-deliver t k s rs n e
stats-assemble_on exhausted t k s rs n e = stats-deliver t k s rs n e
stats-assemble_on failed t k s rs n e =
    stats-deliver (record t { stats = count_error failed t.stats }) k s rs n e

count_error-Counts :
    (why : Stop) (a : Stats) (n : ℕ)
    → Counts a 1 0 (error_of why) n (assembled n (count_error why (received_stats a)))
count_error-Counts starved a n = omega arith
count_error-Counts failed a n = omega arith
count_error-Counts crashed a n = omega arith
count_error-Counts exhausted a n = omega arith

-- What the parser is run on.
snapshot_is :
    (m : Streams) (now : ℕ) (k : StreamKey) (segment : Bytes)
    → buffered (find (append_segment m now k segment) k) ≡ buffer m k ++ segment
snapshot_is m now k segment = (append_segment-Leaves m now k segment).own

kept_segment-Counts :
    (t : Tracker) (now : ℕ) (k : StreamKey) (segment : Bytes) {u : Tracker}
    {reqs : List CapturedRequest}
    → is_kept segment ≡ true
    → feed_segment (received t) now k segment ≡ returned (u, reqs)
    → Counts t.stats 1 0
        (error_of (parse_http_requests (buffer t.streams k ++ segment)).stop)
        (length reqs)
        u.stats
unfolding feed_segment assemble
kept_segment-Counts t now k segment {u} {reqs} kept e =
    let snapshot = buffered (find (append_segment t.streams now k segment) k) in
    let why = (parse_http_requests snapshot).stop in
    rw (← snapshot_is t.streams now k segment) (
      rw (stats-assemble_on why _ k snapshot _ _ (rw kept at e))
        (count_error-Counts why t.stats (length reqs)))

dropped_segment-Counts :
    (t : Tracker) (now : ℕ) (k : StreamKey) (segment : Bytes) {u : Tracker}
    {reqs : List CapturedRequest}
    → is_kept segment ≡ false
    → feed_segment (received t) now k segment ≡ returned (u, reqs)
    → Counts t.stats 1 1 0 (length reqs) u.stats
unfolding feed_segment
dropped_segment-Counts t now k segment gone e = ground (arith, gone)

-- Whatever Feed returns: it counts one packet; a drop exactly if the packet has a payload that looks
-- like no HTTP; a parse error exactly if the stream's bytes with that payload behind them make the
-- parser stop on a malformed request; as many requests as it hands on; and it leaves the counters of
-- the reaper and of Send.
pub feed-Counts :
    (t : Tracker) (now : ℕ) (ev : PktEvent) {u : Tracker} {reqs : List CapturedRequest}
    → feed t now ev ≡ returned (u, reqs)
    → Counts t.stats 1 (drops_of ev) (errors_of t.streams ev) (length reqs) u.stats
unfolding feed payload_of
feed-Counts t now ev {u} {reqs} e = elim (Bool-cases (ev.payload_len == 0)) [
  | inl z ↦ rw z (ground arith)
  | inr z ↦ elim (Bool-cases (ltb (length ev.payload) ev.payload_len)) [
    | inl short ↦ cc (rw (z, short) at e)
    | inr fits ↦
        let ran = rw (z, fits) at e in
        elim (Bool-cases (is_kept (segment_of ev))) [
          | inl kept ↦ rw (z, kept) (kept_segment-Counts t now (key_of ev) (segment_of ev) kept ran)
          | inr gone ↦
              rw (z, gone) (dropped_segment-Counts t now (key_of ev) (segment_of ev) gone ran)
        ]
  ]
]
