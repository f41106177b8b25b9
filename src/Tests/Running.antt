-- ===== src/Tests/Running.antt =====
-- A run of the agent with its default flags; the end that a request with a negative length makes of it;
-- and the summary line.
use mirror_agent.Base.{
  none, codes, ◌==◌, if◌then◌else◌, Bool, some, List, [], ◌∷◌, ◌++◌, ◌≡◌, refl, length, add_int,
}
use mirror_agent.Stats.{Stats, zeroed, print_stats}
use mirror_agent.Loader.{
  System, Effect, opened, put_port, qdisc_add, loader, collection, reader, filter, new_loader,
  close, print_counters,
}
use mirror_agent.Loader.Released.{none_open, replay}
use mirror_agent.Tracker.Streams.{StreamKey, find, put, key_eq}
use mirror_agent.Tracker.Feed.{
  Tracker, feed, feed_segment, append_segment, is_kept, payload_of, assemble, assemble_on,
}
use mirror_agent.Tracker.Trace.{Sent}
use mirror_agent.Agent.Balance.{Balances}
use mirror_agent.Agent.Replayed.{Replays}
use mirror_agent.Agent.Wire.{arrivals}
use mirror_agent.Agent.{agent}
use mirror_agent.Tracker.Live.{fed, live}
use mirror_agent.Tracker.Segment.{looks_like_http}
use mirror_agent.Tracker.Batch.{parse_http_requests}
use mirror_agent.Tracker.Request.{parse_one_request, add_lines, content_length}
use mirror_agent.Go.Strings.{has_prefix, index, split, split_n, trim_space}
use mirror_agent.Go.Strconv.{atoi, decimal}
use mirror_agent.Go.Header.{add, get, canonical_key}
use mirror_agent.Agent.Session.{
  Flags, new_maps, default_flags, session, finished, died, on_loaded, shut_down,
}
use mirror_agent.Agent.Session.Served.{session-finished}
use mirror_agent.Tracker.Request.Written.{render}
use mirror_agent.Tests.Data.{hostile, carrying}
use mirror_agent.Tests.Mirroring.{no_json, answering}
use mirror_agent.Tests.Delivering.{
  packets, served, happenings, happening-heard, happenings-IsInTime, said, flow_said,
}

-- Everything works, on interface 2.
abbrev working : System
working = record {
  loads_spec = λ o. Bool.true;
  makes_collection = λ o. Bool.true;
  has_cfg_map = λ o. Bool.true;
  puts = λ p. Bool.true;
  has_rb_map = λ o. Bool.true;
  makes_reader = Bool.true;
  link_by_name = λ i. some 2;
  program = λ o. some 7;
  adds_filter = λ i f. Bool.true;
}

abbrev by_default : Flags
by_default = default_flags []

abbrev starting : List Effect
starting = opened collection ∷ put_port 9090 ∷ opened reader ∷ qdisc_add 2 ∷ opened filter ∷ []

started_well : new_loader working by_default.bpf by_default.iface 9090 ≡ (starting, loader 2 7)
unfolding new_loader
started_well = refl

session-finished_example :
    (u : Tracker) × (sent : Sent) × (session no_json answering working by_default happenings
      ≡ finished (starting ++ close) u sent (print_stats u.stats))
    × ((k : StreamKey) → Replays k (said k) u sent)
    × Balances zeroed (length (arrivals 9090 packets)) (length sent) u.stats
    × (replay (starting ++ close) (some none_open) ≡ some none_open)
session-finished_example =
    session-finished no_json answering working by_default packets happenings said starting 2 7
      started_well served (happening-heard (new_maps starting) refl) happenings-IsInTime flow_said

abbrev some_counted : Stats
some_counted = record zeroed { packets_received = 120; mirrors_2xx = 7 }

died_of_length :
    session no_json answering working by_default (fed 1 (carrying (render hostile)) ∷ [])
    ≡ died starting
unfolding session on_loaded shut_down new_loader agent live feed is_kept looks_like_http has_prefix
    parse_http_requests parse_one_request index split split_n add_lines add content_length get
    trim_space atoi canonical_key add_int payload_of feed_segment append_segment find put key_eq
    assemble assemble_on
died_of_length = refl

counters_shown :
    print_counters (some (λ k. if k == 0 then some 41 else none))
    ≡ codes "stats: matched_packets=41" ∷ []
unfolding print_counters decimal
counters_shown = refl
