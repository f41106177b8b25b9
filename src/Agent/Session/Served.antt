-- ===== src/Agent/Session/Served.antt =====
-- A run of the agent from its start to its end.
use mirror_agent.Base.{
  ◌∙◌, [], ℕ, ◌%◌, ◌^◌, none, some, List, ◌++◌, ◌≡◌, refl, ap, Bytes, length, All, if_both,
}
use mirror_agent.Go.Json.{Json}
use mirror_agent.Stats.{zeroed, print_stats}
use mirror_agent.Mirror.{Network, ewp_base}
use mirror_agent.Routes.{load_routes}
use mirror_agent.Loader.{
  Effect, opened, put_port, collection, System, loader, load_failed, Loading, first_do, configure,
  new_loader, close,
}
use mirror_agent.Loader.Released.{none_open, replay, new_loader-Releases}
use mirror_agent.Tracker.Streams.{StreamKey}
use mirror_agent.Tracker.Feed.{Tracker}
use mirror_agent.Tracker.Trace.{Sent}
use mirror_agent.Tracker.Live.{Happening, arrivals_of, IsInTime}
use mirror_agent.Agent.Balance.{Balances, agent-Balances}
use mirror_agent.Agent.Replayed.{Conversation, written, Replays}
use mirror_agent.Agent.Wire.{Packet, capture_all, heard, arrivals, flow_bytes}
use mirror_agent.Agent.Wire.Delivered.{IsServed, heard-capture_all}
use mirror_agent.Agent.Wire.EndToEnd.{agent-capture_all}
use mirror_agent.Agent.Session.{
  Flags, new_tracker, configured, new_maps, finished, shut_down, on_loaded, session,
}

-- A loader that is there has put the port into the kernel's map.
abbrev HasPut : ℕ → Loading → Type 0
HasPut port (es, loader index fd) = configured es ≡ some port
HasPut port (es, load_failed why) = Unit

record Configures (port : ℕ) (l : Loading) : Type 0 where
  has_put : HasPut port l

put-Configures : (port : ℕ) (l : Loading) → Configures port (first_do (put_port port) l)
put-Configures port (es, loader index fd) = record { has_put = refl }
put-Configures port (es, load_failed why) = record { has_put = tt }

opened-Configures :
    (port : ℕ) (l : Loading) → Configures port l → Configures port (first_do (opened collection) l)
opened-Configures port (es, loader index fd) c = record { has_put = c.has_put }
opened-Configures port (es, load_failed why) c = record { has_put = tt }

configure-Configures :
    (sys : System) (obj iface : Bytes) (port : ℕ) → Configures port (configure sys obj iface port)
unfolding configure
configure-Configures sys obj iface port =
    if_both (Configures port) (sys.has_cfg_map obj)
      (if_both (Configures port) (sys.puts port) (put-Configures port _) (record { has_put = tt }))
      (record { has_put = tt })

new_loader-Configures :
    (sys : System) (obj iface : Bytes) (port : ℕ) → Configures port (new_loader sys obj iface port)
unfolding new_loader
new_loader-Configures sys obj iface port =
    if_both (Configures port) (sys.loads_spec obj)
      (if_both (Configures port) (sys.makes_collection obj)
        (opened-Configures port _ (configure-Configures sys obj iface port))
        (record { has_put = tt }))
      (record { has_put = tt })

-- The agent from its start to its end, where NewLoader succeeds, on packets of bytes for which the
-- kernel's helpers do not fail, with the reaper's ticks between the events at any times, but not more
-- than ten seconds behind the last segment of a flow that has an unfinished request, no tick within a
-- Feed, and the Sends done when the signal comes. If, on each flow, the payloads of the packets for the
-- port (the flag's low 16 bits) make up whole requests and the beginning of another, then the run ends by
-- the signal and not by a panic; exactly those requests were handed to Send; the counters that the last
-- summary shows have each captured packet as received, and each request as assembled and as skipped or
-- sent; and all that was opened has been closed once.
pub session-finished :
    (json : Json) (net : Network) (sys : System) (f : Flags) (packets : List Packet)
    (hs : List Happening) (said : StreamKey → Conversation) (es : List Effect) (index fd : ℕ)
    → new_loader sys f.bpf f.iface (f.port % 2 ^ 16) ≡ (es, loader index fd)
    → All IsServed packets
    → arrivals_of hs ≡ heard (capture_all (new_maps es) packets).1
    → ((k : StreamKey) → IsInTime k 0 [] hs)
    → ((k : StreamKey) → flow_bytes (f.port % 2 ^ 16) k packets ≡ written (said k))
    → (u : Tracker) × (sent : Sent) × (session json net sys f hs
        ≡ finished (es ++ close) u sent (print_stats u.stats))
      × ((k : StreamKey) → Replays k (said k) u sent)
      × Balances zeroed (length (arrivals (f.port % 2 ^ 16) packets)) (length sent) u.stats
      × (replay (es ++ close) (some none_open) ≡ some none_open)
unfolding session on_loaded
session-finished json net sys f packets hs said es index fd e served events in_time whole =
    let port = f.port % 2 ^ 16 in
    let base = ewp_base f.ewp in
    let table = load_routes json f.routes none in
    let put : configured es ≡ some port =
      rw e at (new_loader-Configures sys f.bpf f.iface port).has_put in
    let released : replay (es ++ close) (some none_open) ≡ some none_open =
      (rw e at (new_loader-Releases sys f.bpf f.iface port).ends).1 in
    let (u, sent, run, replays) =
      agent-capture_all json net base table port (new_maps es) packets hs new_tracker said put
        served events in_time refl whole in
    let captured : arrivals_of hs ≡ arrivals port packets =
      events ∙ heard-capture_all port packets (new_maps es) put served in
    let balances = rw captured at (agent-Balances json net base table hs new_tracker run) in
    (u, sent, rw e (unfold shut_down in ap (shut_down es) run), replays, balances, released)
