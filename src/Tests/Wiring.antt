-- ===== src/Tests/Wiring.antt =====
-- The whole agent: a request in two segments, and a failing start.
use mirror_agent.Base.{
  Bool, codes, true, false, [], ◌∷◌, ◌≡◌, inl, inr, refl, arith, Bool-cases, add_int, ◌*◌, ◌^◌,
  List, pos, ◌∙◌, some,
}
use mirror_agent.Go.Panic.{returned}
use mirror_agent.Go.Strings.{has_prefix, index, trim_space, split, split_n}
use mirror_agent.Go.Strconv.{atoi}
use mirror_agent.Go.Header.{add, get, canonical_key}
use mirror_agent.Stats.{zeroed}
use mirror_agent.Tracker.Request.{incomplete, parse_one_request, content_length, add_lines}
use mirror_agent.Tracker.Request.Written.{IsWritten}
use mirror_agent.Tracker.Streams.{StreamKey, key_eq}
use mirror_agent.Tracker.Feed.{Tracker, received, feed}
use mirror_agent.Tracker.Trace.{Sent, history, tag, contribution}
use mirror_agent.Tracker.Batch.{parse_http_requests}
use mirror_agent.Tracker.Live.{Happening, fed, ticked, live, IsInTime}
use mirror_agent.Mirror.Concurrent.{send_all}
use mirror_agent.Loader.{System, new_loader}
use mirror_agent.Loader.Released.{none_open, Releases, new_loader-Releases}
use mirror_agent.Agent.{agent}
use mirror_agent.Agent.Replayed.{Conversation, written, Replays, agent-Replays}
use mirror_agent.Agent.Balance.{Balances, agent-Balances}
use mirror_agent.Tests.Data.{
  new_tracker, client, two_parts, first_part, second_part, carrying, fetch,
}
use mirror_agent.Tests.Tracking.{history-two_parts, kept-parts}
use mirror_agent.Tests.Mirroring.{no_json, answering, base, routes}

fetch-declared : content_length (add_lines [] fetch.lines) ≡ pos 0
unfolding content_length add_lines index get trim_space atoi canonical_key add
fetch-declared = refl

pub fetch-IsWritten : IsWritten fetch
fetch-IsWritten = record {
  plain = record {
    method_plain = omega arith;
    path_plain = omega arith;
    method_on_line = omega arith;
    path_on_line = omega arith;
    version_on_line = omega arith;
    lines_plain = ((omega arith, λ q. cc), tt);
  };
  declared = fetch-declared;
  allocable = omega arith;
  fits = omega arith;
}

pub nothing-incomplete : parse_one_request [] ≡ returned incomplete
unfolding parse_one_request index has_prefix
nothing-incomplete = refl

-- The client has sent one request, nobody else anything.
abbrev pub said_by : Bool → Conversation
said_by true = record {
  requests = fetch ∷ [];
  unfinished = [];
  all_written = (fetch-IsWritten, tt);
  is_unfinished = nothing-incomplete;
}
said_by false = record {
  requests = [];
  unfinished = [];
  all_written = tt;
  is_unfinished = nothing-incomplete;
}

abbrev said : StreamKey → Conversation
said k = said_by (key_eq client k)

history-said : (k : StreamKey) → history k two_parts ≡ written (said k)
history-said k = elim (Bool-cases (key_eq client k)) [
  | inl own ↦ history-two_parts k ∙ rw own refl
  | inr foreign ↦ history-two_parts k ∙ rw foreign refl
]

-- The reaper ticks while the request is unfinished, and long after it.
abbrev listening : List Happening
listening =
    fed 1 (carrying first_part)
    ∷ ticked (5 * 10 ^ 9)
    ∷ fed (6 * 10 ^ 9) (carrying second_part)
    ∷ ticked (35 * 10 ^ 9)
    ∷ []

listening-IsInTime : (k : StreamKey) → IsInTime k 0 [] listening
unfolding IsInTime contribution parse_http_requests parse_one_request index has_prefix split split_n
    add_lines add content_length get trim_space atoi canonical_key add_int
listening-IsInTime k = elim (Bool-cases (key_eq client k)) [
  | inl own ↦ rw (own, kept-parts.0, kept-parts.1) (inr (omega arith), (inl refl, tt))
  | inr foreign ↦ rw foreign (inr (omega arith), (inl refl, tt))
]

agent-Replays_example :
    (u : Tracker) × (sent : Sent) × (agent no_json answering base
        (some routes)
        new_tracker
        listening
      ≡ returned (u, sent))
    × ((k : StreamKey) → Replays k (said k) u sent)
agent-Replays_example =
    agent-Replays no_json answering base (some routes) new_tracker listening said refl (omega arith)
      listening-IsInTime history-said

bare_run :
    agent no_json answering base (some routes) new_tracker (fed 5 (carrying []) ∷ [])
    ≡ returned (received new_tracker, [])
unfolding agent live feed send_all tag
bare_run = refl

agent-Balances_example : Balances zeroed 1 0 (received new_tracker).stats
agent-Balances_example =
    agent-Balances no_json answering base (some routes) (fed 5 (carrying []) ∷ []) new_tracker
      bare_run

-- All is there, but the filter cannot be added.
abbrev refusing : System
refusing = record {
  loads_spec = λ obj. true;
  makes_collection = λ obj. true;
  has_cfg_map = λ obj. true;
  puts = λ port. true;
  has_rb_map = λ obj. true;
  makes_reader = true;
  link_by_name = λ iface. some 2;
  program = λ obj. some 7;
  adds_filter = λ index fd. false;
}

new_loader-Releases_example :
    Releases none_open (new_loader refusing (codes "/ebpf/mirror.bpf.o") (codes "eth0") 9090)
new_loader-Releases_example =
    new_loader-Releases refusing (codes "/ebpf/mirror.bpf.o") (codes "eth0") 9090
