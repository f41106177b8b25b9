-- ===== src/Agent/Machine.antt =====
-- The agent's goroutines, interleaved: the loop of ReadEvents with its callback, the reaper, and one
-- goroutine for each Send. A step is what one of them does without the others in between: a critical
-- section of Feed with the additions to counters around it, a tick of the reaper, or one addition of a
-- Send.
pub mod Sending
pub mod Counted
pub mod Held
pub mod Race
pub mod Progress
use mirror_agent.Base.{
  ℕ, ◌+◌, List, [], ◌∷◌, ◌++◌, map, length, ◌≡◌, ◌≢◌, ◌==◌, if◌then◌else◌, Bytes,
}
use mirror_agent.Go.Panic.{Run, returned, panicked}
use mirror_agent.Stats.{zeroed}
use mirror_agent.Event.{PktEvent}
use mirror_agent.Routes.{Table}
use mirror_agent.Mirror.{Network}
use mirror_agent.Mirror.Counting.{outcome_of}
use mirror_agent.Mirror.Concurrent.{Counter, add_one, additions}
use mirror_agent.Tracker.Request.{CapturedRequest}
use mirror_agent.Tracker.Batch.{Stop, starved, failed, crashed, exhausted, parse_http_requests}
use mirror_agent.Tracker.Streams.{StreamKey, Streams, find}
use mirror_agent.Tracker.Feed.{
  Tracker, key_of, payload_of, is_kept, buffered, append_segment, dropped, received, assembled,
  with_source, count_error, trim,
}
use mirror_agent.Tracker.Reaper.{reap}

-- Where the callback stands: outside of Feed; behind Feed's first critical section, with the stream's
-- key, the bytes that it took to parse and the time at which it did; or before the second one, with the
-- requests that it found and the bytes that these have consumed. A panic ends the process.
pub data Phase : Type 0 where
  idle : Phase
  parsing : StreamKey → Bytes → ℕ → Phase
  trimming : StreamKey → Bytes → ℕ → List CapturedRequest → ℕ → Phase
  ended : Phase

-- `sends` holds the additions that each Send has still to make, in its order.
pub record Machine : Type 0 where
  pub clock : ℕ
  pub tracker : Tracker
  pub phase : Phase
  pub sends : List (List Counter)

abbrev pub started : Machine
started = record {
  clock = 0;
  tracker = record { streams = []; stats = zeroed };
  phase = idle;
  sends = [];
}

-- Feed up to the end of its first critical section.
unfoldable pub take_segment : Tracker → ℕ → StreamKey → Bytes → Tracker × Phase
take_segment t now key segment =
    if is_kept segment
    then (let m = append_segment t.streams now key segment in
        (record t { streams = m }, parsing key (buffered (find m key)) now))
    else (dropped t, idle)

unfoldable pub on_payload : Tracker → ℕ → StreamKey → Run Bytes → Tracker × Phase
on_payload t now key panicked = (t, ended)
on_payload t now key (returned segment) = take_segment t now key segment

unfoldable pub first_half : Tracker → ℕ → PktEvent → Tracker × Phase
first_half t now ev =
    if ev.payload_len == 0
    then (received t, idle)
    else on_payload (received t) now (key_of ev) (payload_of ev)

-- Feed behind parseHTTPRequests, up to its second critical section.
unfoldable pub on_requests :
    Tracker → StreamKey → Bytes → ℕ → List CapturedRequest → ℕ → Tracker × Phase
on_requests t key snapshot since [] consumed = (t, idle)
on_requests t key snapshot since (r ∷ rs) consumed = (
  record t { stats = assembled (length (r ∷ rs)) t.stats },
  trimming key snapshot since (map (with_source key.src_ip) (r ∷ rs)) consumed,
)

unfoldable pub on_stop :
    Stop → Tracker → StreamKey → Bytes → ℕ → List CapturedRequest → ℕ → Tracker × Phase
on_stop crashed t key snapshot since rs consumed = (t, ended)
on_stop why t key snapshot since rs consumed =
    on_requests (record t { stats = count_error why t.stats }) key snapshot since rs consumed

unfoldable pub parse : Tracker → StreamKey → Bytes → ℕ → Tracker × Phase
parse t key snapshot since =
    let b = parse_http_requests snapshot in
    on_stop b.stop t key snapshot since b.requests b.consumed

module _ (net : Network) (base : Bytes) (table : Table) where
  -- `go mirror.Send(req)` for each request.
  unfoldable pub spawn : List CapturedRequest → List (List Counter)
  spawn [] = []
  spawn (r ∷ rs) = additions (outcome_of net base table r) ∷ spawn rs

  pub data Step (s : Machine) : Machine → Type 0 where
    wait : (d : ℕ) → Step s (record s { clock = s.clock + d })
    receive :
        (ev : PktEvent)
        → s.phase ≡ idle
        → Step s (record s {
          tracker = (first_half s.tracker s.clock ev).0;
          phase = (first_half s.tracker s.clock ev).1;
        })
    parsed :
        (key : StreamKey) (snapshot : Bytes) (since : ℕ)
        → s.phase ≡ parsing key snapshot since
        → Step s (record s {
          tracker = (parse s.tracker key snapshot since).0;
          phase = (parse s.tracker key snapshot since).1;
        })
    trimmed :
        (key : StreamKey) (snapshot : Bytes) (since : ℕ) (reqs : List CapturedRequest)
        (consumed : ℕ) (m : Streams)
        → s.phase ≡ trimming key snapshot since reqs consumed
        → trim s.tracker.streams key snapshot consumed ≡ returned m
        → Step s (record s {
          tracker = record s.tracker { streams = m };
          phase = idle;
          sends = spawn reqs ++ s.sends;
        })
    trim_panics :
        (key : StreamKey) (snapshot : Bytes) (since : ℕ) (reqs : List CapturedRequest)
        (consumed : ℕ)
        → s.phase ≡ trimming key snapshot since reqs consumed
        → trim s.tracker.streams key snapshot consumed ≡ panicked
        → Step s (record s { phase = ended })
    tick : s.phase ≢ ended → Step s (record s { tracker = reap s.tracker s.clock })
    count :
        (before after : List (List Counter)) (c : Counter) (cs : List Counter)
        → s.phase ≢ ended
        → s.sends ≡ before ++ ((c ∷ cs) ∷ after)
        → Step s (record s {
          tracker = record s.tracker { stats = add_one c s.tracker.stats };
          sends = before ++ (cs ∷ after);
        })

  pub data Steps (s : Machine) : Machine → Type 0 where
    here : Steps s s
    next : {t u : Machine} → Steps s t → Step t u → Steps s u

  -- What the agent can come to from its start.
  abbrev pub Reachable : Machine → Type 0
  Reachable = Steps started
