-- ===== src/Agent/Wire.antt =====
-- From packets on the interface to events of the callback: kernel/mirror.bpf.c for each packet, the ring
-- buffer between the two, and the records as loader.go's ReadEvents decodes them.
pub mod Delivered
pub mod EndToEnd
pub mod Counters
use mirror_agent.Base.{
  ℕ, ◌+◌, Bool, ◌&&◌, Option, none, some, List, [], ◌∷◌, ◌++◌, ltb, if◌then◌else◌, Bytes, length,
  take, drop,
}
use mirror_agent.Go.Endian.{uint32}
use mirror_agent.Event.{PktEvent, decode, slice, max_payload}
use mirror_agent.Event.Kernel.{
  Skb, Maps, Helpers, be16, tcp_at, hdr_offset, passes_filter, mirror_ingress,
}
use mirror_agent.Event.RoundTrip.{event_of}
use mirror_agent.Tracker.Streams.{StreamKey, key_eq}
use mirror_agent.Tracker.Feed.{is_kept}
use mirror_agent.Tracker.Trace.{Arrival}

-- A packet, what the BPF helpers answer for it, and when its record is read.
pub record Packet : Type 0 where
  pub now : ℕ
  pub skb : Skb
  pub helpers : Helpers

abbrev pub submitted : ℕ → Option Bytes → List (ℕ × Bytes)
submitted now none = []
submitted now (some raw) = (now, raw) ∷ []

-- The program on one packet after the other: the maps, and the records in the ring buffer.
unfoldable pub capture_all : Maps → List Packet → Maps × List (ℕ × Bytes)
capture_all maps [] = (maps, [])
capture_all maps (p ∷ ps) =
    let first = mirror_ingress p.skb maps p.helpers in
    let rest = capture_all first.0 ps in (rest.0, submitted p.now first.1 ++ rest.1)

abbrev pub arrived : ℕ → Option PktEvent → List Arrival → List Arrival
arrived now none later = later
arrived now (some ev) later = record { now = now; event = ev } ∷ later

-- ReadEvents on the records: an event for each that it decodes.
unfoldable pub heard : List (ℕ × Bytes) → List Arrival
heard [] = []
heard ((now, raw) ∷ rest) = arrived now (decode raw) (heard rest)

-- What the program is meant to capture: a packet for the port, with a payload.
unfoldable pub is_captured : ℕ → Skb → Bool
is_captured port skb =
    passes_filter skb (some port) && ltb (hdr_offset skb.bytes) (length skb.bytes)

unfoldable pub arrivals : ℕ → List Packet → List Arrival
arrivals port [] = []
arrivals port (p ∷ ps) =
    let rest = arrivals port ps in
    if is_captured port p.skb then record { now = p.now; event = event_of p.skb } ∷ rest else rest

abbrev pub flow_of : Skb → StreamKey
flow_of skb = record {
  src_ip = uint32 (slice skb.bytes 26 30);
  dst_ip = uint32 (slice skb.bytes 30 34);
  src_port = be16 skb.bytes (tcp_at skb.bytes);
  dst_port = be16 skb.bytes (tcp_at skb.bytes + 2);
}

-- The payload, of which the kernel takes at most 1500 bytes.
abbrev pub tcp_payload : Skb → Bytes
tcp_payload skb = take max_payload (drop (hdr_offset skb.bytes) skb.bytes)

-- What a client says to the port on one flow: the payloads, less the segments that look like no HTTP.
unfoldable pub flow_bytes : ℕ → StreamKey → List Packet → Bytes
flow_bytes port k [] = []
flow_bytes port k (p ∷ ps) =
    let rest = flow_bytes port k ps in
    if is_captured port p.skb && (key_eq (flow_of p.skb) k && is_kept (tcp_payload p.skb))
    then tcp_payload p.skb ++ rest
    else rest
