-- ===== src/Tests/Tracking.antt =====
-- The tracker: a request in two segments, the counters, the reaper; and a captured packet.
use mirror_agent.Base.{
  codes, ◌+◌, ◌*◌, ◌^◌, replicate, Bool, true, false, some, [], ◌∷◌, ◌++◌, ◌≡◌, ◌≢◌, inl, inr, refl,
  ap, arith, if◌then◌else◌, Bytes, length, drop, Bool-cases, add_int,
}
use mirror_agent.Go.Panic.{returned, panicked}
use mirror_agent.Go.Strings.{has_prefix, index, split, split_n, trim_space}
use mirror_agent.Go.Strconv.{atoi}
use mirror_agent.Go.Header.{add, get, canonical_key}
use mirror_agent.Tracker.Segment.{looks_like_http, looks_like_continuation}
use mirror_agent.Tracker.Request.{add_lines, content_length, parse_one_request}
use mirror_agent.Tracker.Batch.{starved, crashed, parse_http_requests}
use mirror_agent.Tracker.Streams.{StreamKey, Streams, key_eq, find, put}
use mirror_agent.Tracker.Feed.{
  Tracker, feed, trim, is_kept, payload_of, feed_segment, append_segment, assemble, assemble_on,
  deliver,
}
use mirror_agent.Tracker.Feed.Step.{buffer, Leaves}
use mirror_agent.Tracker.Feed.Accounting.{Counts, drops_of, errors_of, feed-Counts}
use mirror_agent.Tracker.Trace.{Sent, feed_all, of_stream, history}
use mirror_agent.Tracker.Trace.Advance.{Advances, IsDrained}
use mirror_agent.Tracker.Trace.Streaming.{feed_all-Advances}
use mirror_agent.Tracker.Reaper.{reap}
use mirror_agent.Tracker.Reaper.Laws.{IsMap, kept, reap_lem}
use mirror_agent.Tracker.Reaper.Race.{appended, trim-reap, trim-reap_panics}
use mirror_agent.Event.{decode}
use mirror_agent.Event.Kernel.{Maps, passes_filter, mirror_ingress}
use mirror_agent.Event.RoundTrip.{event_of, mirror_ingress-decode}
use mirror_agent.Stats.{zeroed}
use mirror_agent.Tests.Data.{
  new_tracker, client, carrying, first_part, second_part, two_parts, frame,
}

pub kept-parts : (is_kept first_part ≡ true) × (is_kept second_part ≡ true)
unfolding is_kept looks_like_http looks_like_continuation has_prefix
kept-parts = (refl, refl)

whole-starved : (parse_http_requests (first_part ++ second_part)).stop ≡ starved
unfolding parse_http_requests parse_one_request index has_prefix split split_n add_lines add
    content_length get trim_space atoi canonical_key add_int
whole-starved = refl

nothing-starved : (parse_http_requests []).stop ≡ starved
unfolding parse_http_requests parse_one_request index has_prefix
nothing-starved = refl

new-IsDrained : (k : StreamKey) → IsDrained new_tracker.streams k
unfolding find parse_http_requests parse_one_request index has_prefix
new-IsDrained k = refl

pub history-two_parts :
    (k : StreamKey)
    → history k two_parts ≡ (if key_eq client k then first_part ++ second_part else [])
unfolding history
history-two_parts k = elim (Bool-cases (key_eq client k)) [
  | inl own ↦ rw (own, kept-parts.0, kept-parts.1)
  | inr foreign ↦ rw foreign
]

starved_by :
    (own : Bool)
    → (parse_http_requests (if own then first_part ++ second_part else [])).stop ≡ starved
starved_by true = whole-starved
starved_by false = nothing-starved

two_parts-safe :
    (k : StreamKey)
    → (parse_http_requests (buffer new_tracker.streams k ++ history k two_parts)).stop ≢ crashed
unfolding find
two_parts-safe k e =
    let s = starved_by (key_eq client k) in
    cc (ap (λ z. (parse_http_requests z).stop) (history-two_parts k), s, e)

feed_all-Advances_example :
    (u : Tracker) × (sent : Sent) × (feed_all (λ s reqs. s) new_tracker two_parts
      ≡ returned (u, sent))
    × ((k : StreamKey)
        → Advances k new_tracker.streams (history k two_parts) u.streams (of_stream k sent))
feed_all-Advances_example =
    feed_all-Advances (λ s reqs. s) two_parts new_tracker (omega arith) new-IsDrained two_parts-safe

-- A segment that is kept, and is no request.
abbrev malformed : Bytes
malformed = codes "hello\r\n\r\n"

abbrev behind_malformed : Tracker
behind_malformed = record {
  streams = (client, record { buf = malformed; last_seen = 5 }) ∷ [];
  stats = record zeroed { packets_received = 1; parse_errors = 1 };
}

fed_malformed : feed new_tracker 5 (carrying malformed) ≡ returned (behind_malformed, [])
unfolding feed payload_of is_kept looks_like_http looks_like_continuation has_prefix feed_segment
    append_segment find put key_eq assemble assemble_on deliver parse_http_requests
    parse_one_request index split split_n
fed_malformed = refl

counted_once :
    (drops_of (carrying malformed) ≡ 0) × (errors_of new_tracker.streams (carrying malformed) ≡ 1)
unfolding is_kept looks_like_http looks_like_continuation has_prefix find parse_http_requests
    parse_one_request index split split_n
counted_once = (refl, refl)

feed-Counts_example :
    Counts zeroed 1
      (drops_of (carrying malformed))
      (errors_of new_tracker.streams (carrying malformed))
      0
      behind_malformed.stats
feed-Counts_example = feed-Counts new_tracker 5 (carrying malformed) fed_malformed

-- One stream, seen one second after the start.
abbrev waiting : Tracker
waiting = record {
  streams = (client, record { buf = first_part; last_seen = 10 ^ 9 }) ∷ [];
  stats = zeroed;
}

waiting-IsMap : IsMap waiting.streams
unfolding find
waiting-IsMap = (refl, tt)

reap_lem_example :
    ((k : StreamKey)
      → find (reap waiting (12 * 10 ^ 9)).streams k ≡ kept (12 * 10 ^ 9) (find waiting.streams k))
    × ((reap waiting (12 * 10 ^ 9)).stats.streams_reaped
          + length (reap waiting (12 * 10 ^ 9)).streams
        ≡ 0 + 1)
reap_lem_example = reap_lem waiting (12 * 10 ^ 9) waiting-IsMap

trim-reap_example :
    (m' : Streams) × (trim
        (reap (appended new_tracker 0 client first_part) 5).streams
        client
        first_part
        3
      ≡ returned m')
    × Leaves
        (reap (appended new_tracker 0 client first_part) 5).streams
        client
        (drop 3 first_part)
        m'
trim-reap_example = trim-reap new_tracker 0 client first_part tt 5 first_part 3 (omega arith)

trim-reap_panics_example :
    trim (reap (appended new_tracker 0 client first_part) (11 * 10 ^ 9)).streams client first_part 3
    ≡ panicked
trim-reap_panics_example =
    trim-reap_panics new_tracker 0 client first_part tt (11 * 10 ^ 9) first_part 3 (omega arith)
      (omega arith)

frame-passes : passes_filter frame (some 9090) ≡ true
unfolding passes_filter
frame-passes = refl

abbrev maps : Maps
maps = record { target_port = some 9090; matched = 7; drops = 0 }

mirror_ingress-decode_example :
    (raw : Bytes) × (mirror_ingress frame maps
        (record { slot = some (replicate 1516 1); loads = true })
      ≡ (record maps { matched = 8 }, some raw))
    × (decode raw ≡ some (event_of frame))
    × ((event_of frame).dst_port ≡ 9090)
mirror_ingress-decode_example =
    mirror_ingress-decode frame maps 9090 (replicate 1516 1) (omega arith) refl frame-passes
      (omega arith)
