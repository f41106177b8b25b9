-- ===== src/Event.antt =====
-- mirror-agent/loader.go: PktEvent, the parsing of a ring buffer record in ReadEvents, and ipStr.
pub mod Kernel
pub mod RoundTrip
use mirror_agent.Base.{
  ℕ, ◌+◌, ◌-◌, ◌/◌, ◌%◌, Option, none, some, List, [], ◌∷◌, ◌++◌, ltb, leb, if◌then◌else◌, Bytes,
  length, take, drop, replicate,
}
use mirror_agent.Go.Endian.{uint16, uint32, put_uint32}

pub record PktEvent : Type 0 where
  pub src_ip : ℕ
  pub dst_ip : ℕ
  pub src_port : ℕ
  pub dst_port : ℕ
  pub tcp_flags : ℕ
  pub payload_len : ℕ
  pub payload : Bytes

abbrev pub pkt_event_header_size : ℕ
pkt_event_header_size = 16

abbrev pub max_payload : ℕ
max_payload = 1500

-- raw[from:to]
abbrev pub slice : Bytes → ℕ → ℕ → Bytes
slice raw from to = take (to - from) (drop from raw)

abbrev pub byte_at : Bytes → ℕ → ℕ
byte_at [] i = 0
byte_at (c ∷ s) i = if leb i 0 then c else byte_at s (i - 1)

abbrev pub at_most : ℕ → ℕ → ℕ
at_most limit n = if ltb limit n then limit else n

-- The body of the loop in ReadEvents: `none` where the record is too short and is passed over. The
-- payload array starts out as zeros, and what fits is copied to its front.
unfoldable pub decode : Bytes → Option PktEvent
decode raw =
    if ltb (length raw) pkt_event_header_size
    then none
    else let len = at_most max_payload (uint16 (slice raw 12 14)) in
      let copy_len = at_most (length raw - pkt_event_header_size) len in
      some (record {
        src_ip = uint32 (slice raw 0 4);
        dst_ip = uint32 (slice raw 4 8);
        src_port = uint16 (slice raw 8 10);
        dst_port = uint16 (slice raw 10 12);
        tcp_flags = byte_at raw 14;
        payload_len = len;
        payload =
            slice raw pkt_event_header_size (pkt_event_header_size + copy_len)
            ++ replicate (max_payload - copy_len) 0;
      })

-- A record after the other, until the reader is closed: the events handed to `fn`.
unfoldable pub read_events : List Bytes → List PktEvent
unfolding decode
read_events [] = []
read_events (raw ∷ rest) = elim (decode raw) [
  | none ↦ read_events rest
  | some ev ↦ ev ∷ read_events rest
]

digit : ℕ → ℕ
digit d = b'0' + d

-- The decimal digits of a byte, as net.IP prints it.
unfoldable pub octet : ℕ → Bytes
unfolding digit
octet v =
    (if leb 100 v then digit (v / 100) ∷ [] else [])
    ++ ((if leb 10 v then digit (v / 10 % 10) ∷ [] else []) ++ (digit (v % 10) ∷ []))

-- Four bytes in dotted decimal.
unfoldable pub dotted : Bytes → Bytes
unfolding octet
dotted (a ∷ b ∷ c ∷ d ∷ _) = octet a ++ (b'.' ∷ (octet b ++ (b'.' ∷ (octet c ++ (b'.' ∷ octet d)))))
dotted _ = []

unfoldable pub ip_str : ℕ → Bytes
unfolding dotted
ip_str ip = dotted (put_uint32 ip)
