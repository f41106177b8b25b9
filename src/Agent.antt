-- ===== src/Agent.antt =====
-- mirror-agent/main.go: the callback that main gives to ReadEvents, over a sequence of events and of ticks
-- of the reaper.
pub mod Replayed
pub mod Balance
pub mod Machine
pub mod Wire
pub mod Session
use mirror_agent.Base.{List, Bytes}
use mirror_agent.Go.Json.{Json}
use mirror_agent.Go.Panic.{Run}
use mirror_agent.Routes.{Table}
use mirror_agent.Mirror.{Network}
use mirror_agent.Mirror.Concurrent.{send_all}
use mirror_agent.Tracker.Feed.{Tracker}
use mirror_agent.Tracker.Trace.{Sent}
use mirror_agent.Tracker.Live.{Happening, live}

-- The callback on each event, which runs Feed and then the Send of each request that Feed returns; and
-- between them the ticks of the tracker's reaper. The Sends are goroutines of their own, here they run
-- one after the other; Mirror/Concurrent and Machine are about their interleaving.
unfoldable pub agent :
    Json → Network → Bytes → Table → Tracker → List Happening → Run (Tracker × Sent)
agent json net base table = live (send_all json net base table)
