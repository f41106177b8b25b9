-- ===== src/Tests/Delivering.antt =====
-- A request in two packets, from the interface to Send.
use mirror_agent.Base.{
  ℕ, ◌*◌, ◌^◌, ◌∙◌, sym, add_int, Bool, replicate, All, some, List, [], ◌∷◌, ◌≡◌, inl, inr, refl,
  arith, Bool-cases, Bytes,
}
use mirror_agent.Go.Panic.{returned}
use mirror_agent.Go.Strings.{has_prefix, index, trim_space, split, split_n}
use mirror_agent.Go.Strconv.{atoi}
use mirror_agent.Go.Header.{get, add, canonical_key}
use mirror_agent.Tracker.Request.{parse_one_request, content_length, add_lines}
use mirror_agent.Tracker.Batch.{parse_http_requests}
use mirror_agent.Tracker.Live.{Happening, fed, ticked, arrivals_of, IsInTime}
use mirror_agent.Event.Kernel.{Maps, passes_filter}
use mirror_agent.Tracker.Segment.{looks_like_http, looks_like_continuation}
use mirror_agent.Tracker.Streams.{StreamKey, key_eq}
use mirror_agent.Tracker.Feed.{Tracker, is_kept}
use mirror_agent.Tracker.Trace.{Sent, contribution}
use mirror_agent.Event.RoundTrip.{IsByte, event_of}
use mirror_agent.Agent.{agent}
use mirror_agent.Agent.Replayed.{Conversation, written, Replays}
use mirror_agent.Agent.Wire.{Packet, capture_all, heard, arrivals, is_captured, flow_bytes}
use mirror_agent.Agent.Wire.Delivered.{IsServed, heard-capture_all}
use mirror_agent.Agent.Wire.EndToEnd.{agent-capture_all}
use mirror_agent.Agent.Wire.Counters.{Accounts, capture_all-Accounts}
use mirror_agent.Tests.Data.{new_tracker, framed, first_part, second_part}
use mirror_agent.Tests.Mirroring.{no_json, answering, base, routes}
use mirror_agent.Tests.Wiring.{said_by}

abbrev pub packet : ℕ → Bytes → Packet
packet now payload = record {
  now = now;
  skb = framed payload;
  helpers = record { slot = some (replicate 1516 1); loads = Bool.true };
}

-- The request, with a packet that has no payload and one that is no HTTP in between.
abbrev pub packets : List Packet
packets =
    packet 1 first_part
    ∷ packet 2 []
    ∷ packet 3 (replicate 12 1)
    ∷ packet (6 * 10 ^ 9) second_part
    ∷ []

pub served : All IsServed packets
served =
    let one : (now : ℕ) (payload : Bytes)
        → All IsByte (framed payload).bytes
        → IsServed (packet now payload) =
      λ now payload bytes. record { bytes = bytes; slot = replicate 1516 1; helped = refl } in
    (
      one 1 first_part (omega arith),
      (one 2 [] (omega arith), (one 3 _ (omega arith), (one _ second_part (omega arith), tt))),
    )

-- The events that the packets make, with ticks of the reaper in between and behind.
abbrev pub happenings : List Happening
happenings =
    fed 1 (event_of (framed first_part))
    ∷ fed 3 (event_of (framed (replicate 12 1)))
    ∷ ticked (5 * 10 ^ 9)
    ∷ fed (6 * 10 ^ 9) (event_of (framed second_part))
    ∷ ticked (35 * 10 ^ 9)
    ∷ []

abbrev pub maps : Maps
maps = record { target_port = some 9090; matched = 7; drops = 0 }

abbrev pub caller : StreamKey
caller = record { src_ip = 0x0100000a; dst_ip = 0x0200000a; src_port = 51234; dst_port = 9090 }

abbrev pub said : StreamKey → Conversation
said k = said_by (key_eq caller k)

pub flow_said : (k : StreamKey) → flow_bytes 9090 k packets ≡ written (said k)
unfolding flow_bytes is_captured passes_filter is_kept looks_like_http looks_like_continuation
    has_prefix
flow_said k = elim (Bool-cases (key_eq caller k)) [
  | inl own ↦ rw own refl
  | inr foreign ↦ rw foreign refl
]

heard-capture_all_example : heard (capture_all maps packets).1 ≡ arrivals 9090 packets
heard-capture_all_example = heard-capture_all 9090 packets maps refl served

happening-arrivals : arrivals_of happenings ≡ arrivals 9090 packets
unfolding arrivals is_captured passes_filter
happening-arrivals = refl

pub happening-heard :
    (m : Maps)
    → m.target_port ≡ some 9090
    → arrivals_of happenings ≡ heard (capture_all m packets).1
happening-heard m put = happening-arrivals ∙ sym (heard-capture_all 9090 packets m put served)

pub happenings-IsInTime : (k : StreamKey) → IsInTime k 0 [] happenings
unfolding IsInTime contribution is_kept looks_like_http looks_like_continuation parse_http_requests
    parse_one_request index has_prefix split split_n add_lines add content_length get trim_space
    atoi canonical_key add_int
happenings-IsInTime k = elim (Bool-cases (key_eq caller k)) [
  | inl own ↦ rw own (inr (omega arith), (inl refl, tt))
  | inr foreign ↦ rw foreign (inr (omega arith), (inl refl, tt))
]

agent-capture_all_example :
    (u : Tracker) × (sent : Sent) × (agent no_json answering base
        (some routes)
        new_tracker
        happenings
      ≡ returned (u, sent))
    × ((k : StreamKey) → Replays k (said k) u sent)
agent-capture_all_example =
    agent-capture_all no_json answering base (some routes) 9090 maps packets happenings new_tracker
      said refl served (happening-heard maps refl) happenings-IsInTime refl flow_said

capture_all-Accounts_example : Accounts maps packets (capture_all maps packets)
capture_all-Accounts_example = capture_all-Accounts packets maps
