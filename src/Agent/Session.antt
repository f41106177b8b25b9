-- ===== src/Agent/Session.antt =====
-- mirror-agent/main.go: a run of the agent, from the flags to the summary at its end. Between the start
-- and the signal ReadEvents hands the events to the callback, and the reaper of NewTCPTracker ticks. (A
-- tick comes between two events here, and the Sends are done when the signal comes; Agent/Machine has
-- the interleavings.)
pub mod Served
use mirror_agent.Base.{ℕ, ◌%◌, ◌^◌, Option, none, some, List, [], ◌∷◌, ◌++◌, Bytes, codes}
use mirror_agent.Go.Json.{Json}
use mirror_agent.Go.Panic.{Run, returned, panicked}
use mirror_agent.Stats.{zeroed, print_stats}
use mirror_agent.Routes.{Table, load_routes}
use mirror_agent.Mirror.{Network, ewp_base}
use mirror_agent.Loader.{
  Effect, put_port, System, Loaded, loader, load_failed, LoadError, Loading, new_loader, close,
}
use mirror_agent.Event.Kernel.{Maps}
use mirror_agent.Tracker.Feed.{Tracker}
use mirror_agent.Tracker.Trace.{Sent}
use mirror_agent.Tracker.Live.{Happening}
use mirror_agent.Agent.{agent}

pub record Flags : Type 0 where
  pub iface : Bytes
  pub port : ℕ
  pub ewp : Bytes
  pub bpf : Bytes
  pub routes : Bytes

-- With no arguments; `env` is $MIRROR_ROUTES.
abbrev pub default_flags : Bytes → Flags
default_flags env = record {
  iface = codes "eth0";
  port = 9090;
  ewp = codes "http://ewp-sim:9091";
  bpf = codes "/ebpf/mirror.bpf.o";
  routes = env;
}

-- The tracker that NewTCPTracker makes. The reaper that it starts is in the happenings of a run.
abbrev pub new_tracker : Tracker
new_tracker = record { streams = []; stats = zeroed }

-- What was put into cfg_target_port.
abbrev pub configured : List Effect → Option ℕ
configured [] = none
configured (put_port port ∷ es) = some port
configured (e ∷ es) = configured es

abbrev pub new_maps : List Effect → Maps
new_maps es = record { target_port = configured es; matched = 0; drops = 0 }

-- The end of the process: log.Fatalf, a panic, or behind the signal, with the last summary line.
pub data Session : Type 0 where
  fatal : List Effect → LoadError → Session
  died : List Effect → Session
  finished : List Effect → Tracker → Sent → Bytes → Session

-- Behind the signal: the summary, and the deferred Close.
unfoldable pub shut_down : List Effect → Run (Tracker × Sent) → Session
shut_down es panicked = died es
shut_down es (returned (t, sent)) = finished (es ++ close) t sent (print_stats t.stats)

unfoldable pub on_loaded : Json → Network → Flags → Table → List Happening → Loading → Session
unfolding shut_down
on_loaded json net f table hs (es, load_failed why) = fatal es why
on_loaded json net f table hs (es, loader index fd) =
    shut_down es (agent json net (ewp_base f.ewp) table new_tracker hs)

-- uint16(*port) keeps the low 16 bits.
unfoldable pub session : Json → Network → System → Flags → List Happening → Session
unfolding on_loaded
session json net sys f hs =
    on_loaded json net f (load_routes json f.routes none) hs
      (new_loader sys f.bpf f.iface (f.port % 2 ^ 16))
