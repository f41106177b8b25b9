-- ===== src/Tests/Interleaving.antt =====
-- The interleaved agent: a request and the beginning of another, and a reaper that comes too late.
use mirror_agent.Base.{◌+◌, ◌<◌, List, ◌++◌, map, ◌≡◌, ◌⊎◌, refl, Bytes, length, some, add_int}
use mirror_agent.Go.Panic.{panicked}
use mirror_agent.Go.Strings.{has_prefix, index, split, split_n, trim_space}
use mirror_agent.Go.Strconv.{atoi}
use mirror_agent.Go.Header.{add, get, canonical_key}
use mirror_agent.Tracker.Segment.{looks_like_http, looks_like_continuation}
use mirror_agent.Tracker.Request.{CapturedRequest, add_lines, content_length, parse_one_request}
use mirror_agent.Tracker.Batch.{parse_http_requests}
use mirror_agent.Tracker.Streams.{find, put, key_eq}
use mirror_agent.Tracker.Feed.{trim, is_kept, payload_of, append_segment, with_source}
use mirror_agent.Tracker.Reaper.{window, reap}
use mirror_agent.Agent.Machine.{
  parsing, trimming, Machine, started, first_half, on_payload, take_segment, parse, on_stop,
  on_requests, receive, parsed, wait, tick, Steps, here, next, Reachable,
}
use mirror_agent.Agent.Machine.Counted.{IsCounted, Reachable-IsCounted}
use mirror_agent.Agent.Machine.Race.{panics-late}
use mirror_agent.Agent.Machine.Progress.{IsDoomed, IsSettled, Reachable-settles}
use mirror_agent.Tests.Data.{client, carrying, first_part, second_part}
use mirror_agent.Tests.Mirroring.{answering, base, routes}

-- A whole GET, and the beginning of the next.
abbrev more : Bytes
more = first_part ++ second_part ++ first_part

abbrev took : Machine
took = record started {
  tracker = (first_half started.tracker 0 (carrying more)).0;
  phase = (first_half started.tracker 0 (carrying more)).1;
}

abbrev found : Machine
found = record took {
  tracker = (parse took.tracker client more 0).0;
  phase = (parse took.tracker client more 0).1;
}

-- More than ten seconds later, behind a tick of the reaper.
abbrev too_late : Machine
too_late = record found {
  clock = found.clock + (window + 1);
  tracker = reap found.tracker (found.clock + (window + 1));
}

took_phase : took.phase ≡ parsing client more 0
unfolding first_half on_payload payload_of take_segment is_kept append_segment looks_like_http
    looks_like_continuation has_prefix find put key_eq
took_phase = refl

abbrev requests : List CapturedRequest
requests = map (with_source client.src_ip) (parse_http_requests more).requests

found_phase : found.phase ≡ trimming client more 0 requests 28
unfolding parse on_stop on_requests parse_http_requests parse_one_request index has_prefix split
    split_n add_lines add content_length get trim_space atoi canonical_key add_int
found_phase = refl

gone : trim too_late.tracker.streams client more 28 ≡ panicked
unfolding parse on_stop on_requests parse_http_requests parse_one_request index has_prefix split
    split_n add_lines add content_length get trim_space atoi canonical_key add_int first_half
    on_payload payload_of take_segment is_kept append_segment looks_like_http
    looks_like_continuation find trim reap put
gone = refl

took_reached : Reachable answering base (some routes) took
took_reached = next here (receive (carrying more) refl)

found_reached : Reachable answering base (some routes) found
found_reached = next took_reached (parsed client more 0 took_phase)

too_late_reached : Reachable answering base (some routes) too_late
too_late_reached = next (next found_reached (wait (window + 1))) (tick (λ h. cc (found_phase, h)))

Reachable-IsCounted_example : IsCounted found
Reachable-IsCounted_example = Reachable-IsCounted answering base (some routes) found_reached

panics-late_example : (0 + window < too_late.clock) × (28 < length more)
panics-late_example =
    panics-late answering base (some routes) too_late client more 0 requests 28 too_late_reached
      found_phase gone

Reachable-settles_example :
    IsDoomed found ⊎ ((n : Machine) × Steps answering base (some routes) found n × IsSettled n)
Reachable-settles_example = Reachable-settles answering base (some routes) found found_reached
