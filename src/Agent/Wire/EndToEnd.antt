-- ===== src/Agent/Wire/EndToEnd.antt =====
-- From the packets of the clients to the requests that are replayed.
use mirror_agent.Base.{ℕ, some, List, [], ◌≡◌, ◌∙◌, ap, Bytes, All}
use mirror_agent.Go.Json.{Json}
use mirror_agent.Go.Panic.{returned}
use mirror_agent.Routes.{Table}
use mirror_agent.Mirror.{Network}
use mirror_agent.Event.Kernel.{Maps}
use mirror_agent.Tracker.Streams.{StreamKey}
use mirror_agent.Tracker.Feed.{Tracker}
use mirror_agent.Tracker.Trace.{Sent, history}
use mirror_agent.Tracker.Live.{Happening, arrivals_of, IsInTime}
use mirror_agent.Agent.{agent}
use mirror_agent.Agent.Replayed.{Conversation, written, Replays, agent-Replays}
use mirror_agent.Agent.Wire.{Packet, capture_all, heard, arrivals, flow_bytes}
use mirror_agent.Agent.Wire.Delivered.{
  IsServed, heard-capture_all, history-arrivals, arrivals-AllSized,
}

module _ (json : Json) (net : Network) (base : Bytes) (table : Table) where
  -- The kernel program, the ring buffer, ReadEvents and the callback, one behind the other, on packets
  -- of bytes for which the kernel's helpers do not fail, with the port configured and no streams yet;
  -- the reaper ticks between the events at any times, but not more than ten seconds behind the last
  -- segment of a flow that has an unfinished request, and not within a Feed. If, on each flow, the payloads of the packets for
  -- the port (1500 bytes of each at most, less those that look like no HTTP) make up whole requests and
  -- the beginning of another, then the agent does not panic and hands to Send, of each flow, exactly
  -- those requests in order, and the beginning of the other stays buffered.
  pub agent-capture_all :
      (port : ℕ) (maps : Maps) (packets : List Packet) (hs : List Happening) (t : Tracker)
      (said : StreamKey → Conversation)
      → maps.target_port ≡ some port
      → All IsServed packets
      → arrivals_of hs ≡ heard (capture_all maps packets).1
      → ((k : StreamKey) → IsInTime k 0 [] hs)
      → t.streams ≡ []
      → ((k : StreamKey) → flow_bytes port k packets ≡ written (said k))
      → (u : Tracker) × (sent : Sent) × (agent json net base table t hs ≡ returned (u, sent))
        × ((k : StreamKey) → Replays k (said k) u sent)
  agent-capture_all port maps packets hs t said configured served events in_time new e =
      let same : arrivals_of hs ≡ arrivals port packets =
        events ∙ heard-capture_all port packets maps configured served in
      agent-Replays json net base table t hs said new (rw same (arrivals-AllSized port packets))
        in_time (λ k. ap (history k) same ∙ history-arrivals port k packets ∙ e k)
