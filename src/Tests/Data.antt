-- ===== src/Tests/Data.antt =====
-- Requests, events and packets for the tests.
use mirror_agent.Base.{ℕ, ◌*◌, ◌^◌, List, [], ◌∷◌, ◌++◌, Bytes, codes, length, replicate}
pub use mirror_agent.Agent.Session.{new_tracker}
use mirror_agent.Event.{PktEvent}
use mirror_agent.Tracker.Request.Written.{Written}
use mirror_agent.Tracker.Streams.{StreamKey}
use mirror_agent.Tracker.Trace.{Arrival}
use mirror_agent.Event.Kernel.{Skb}

-- POST /a HTTP/1.1, Content-Length: 2, body "hi".
abbrev pub post : Written
post = record {
  method = codes "POST";
  path = codes "/a";
  version = codes "HTTP/1.1";
  lines = codes "host: x" ∷ codes "content-length: 2" ∷ [];
  body = codes "hi";
}

-- A negative Content-Length.
abbrev pub hostile : Written
hostile = record {
  method = codes "GET";
  path = codes "/";
  version = codes "HTTP/1.1";
  lines = codes "Content-Length: -1" ∷ [];
  body = [];
}

abbrev pub client : StreamKey
client = record { src_ip = 0x0100007f; dst_ip = 0x0200007f; src_port = 51234; dst_port = 9090 }

abbrev pub carrying : Bytes → PktEvent
carrying payload = record {
  src_ip = 0x0100007f;
  dst_ip = 0x0200007f;
  src_port = 51234;
  dst_port = 9090;
  tcp_flags = 24;
  payload_len = length payload;
  payload = payload;
}

abbrev pub at : ℕ → Bytes → Arrival
at now payload = record { now = now; event = carrying payload }

-- A GET, cut inside its head.
abbrev pub first_part : Bytes
first_part = codes "GET /a HTTP/1.1\r\nHost"

abbrev pub second_part : Bytes
second_part = codes ": x\r\n\r\n"

abbrev pub two_parts : List Arrival
two_parts = at 1 first_part ∷ at (6 * 10 ^ 9) second_part ∷ []

-- An Ethernet frame with an IPv4 packet for port 9090 that carries the payload.
abbrev pub framed : Bytes → Skb
framed payload = record {
  bytes =
      replicate 12 0
      ++ (8
          ∷ 0
          ∷ 0x45
          ∷ (replicate 8 0
              ++ (6
                  ∷ 0
                  ∷ 0
                  ∷ 10
                  ∷ 0
                  ∷ 0
                  ∷ 1
                  ∷ 10
                  ∷ 0
                  ∷ 0
                  ∷ 2
                  ∷ 200
                  ∷ 34
                  ∷ 0x23
                  ∷ 0x82
                  ∷ (replicate 8 0 ++ (0x50 ∷ 0x18 ∷ (replicate 6 0 ++ payload))))));
  linear = 54;
}

abbrev pub frame : Skb
frame = framed (codes "hey")

-- The request that `two_parts` carries.
abbrev pub fetch : Written
fetch = record {
  method = codes "GET";
  path = codes "/a";
  version = codes "HTTP/1.1";
  lines = codes "Host: x" ∷ [];
  body = [];
}
