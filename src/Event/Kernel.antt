-- ===== src/Event/Kernel.antt =====
-- kernel/mirror.bpf.c: the TC ingress program that captures a segment. What the BPF helpers answer
-- (is there a slot in the ring buffer, and what is in its memory; does the load succeed) is an
-- argument. A failed bpf_skb_load_bytes clears its target, as its documentation says.
use mirror_agent.Base.{
  ℕ, ◌+◌, ◌-◌, ◌*◌, ◌/◌, ◌%◌, ◌^◌, Bool, Option, none, some, ◌∷◌, ◌++◌, not, ◌==◌, ltb, leb,
  if◌then◌else◌, Bytes, length, take, drop, replicate,
}
use mirror_agent.Go.Endian.{put_uint16, put_uint32, uint32}
use mirror_agent.Event.{byte_at, at_most, slice, max_payload}

-- A packet: all its bytes, and how many of them lie between `data` and `data_end`.
pub record Skb : Type 0 where
  pub bytes : Bytes
  pub linear : ℕ

-- The maps: the configured port, and the two counters.
pub record Maps : Type 0 where
  pub target_port : Option ℕ
  pub matched : ℕ
  pub drops : ℕ

pub record Helpers : Type 0 where
  pub slot : Option Bytes
  pub loads : Bool

-- A field in network byte order.
abbrev pub be16 : Bytes → ℕ → ℕ
be16 s i = 256 * byte_at s i + byte_at s (i + 1)

abbrev pub bit : ℕ → ℕ → ℕ
bit b i = b / 2 ^ i % 2

-- fin, syn, rst, psh and ack, from the flags byte of the TCP header.
unfoldable pub flags : ℕ → ℕ
flags b = bit b 0 + bit b 1 * 2 + bit b 2 * 4 + bit b 3 * 8 + bit b 4 * 16

abbrev pub eth_len : ℕ
eth_len = 14

abbrev pub iph_len : Bytes → ℕ
iph_len s = byte_at s eth_len % 16 * 4

abbrev pub tcp_at : Bytes → ℕ
tcp_at s = eth_len + iph_len s

abbrev pub hdr_offset : Bytes → ℕ
hdr_offset s = tcp_at s + byte_at s (tcp_at s + 12) / 16 * 4

-- The checks up to the port filter: `data_end` before each header, IPv4, TCP, and the port.
unfoldable pub passes_filter : Skb → Option ℕ → Bool
passes_filter skb target =
    let s = skb.bytes in
    if ltb skb.linear eth_len
    then Bool.false
    else if not (be16 s 12 == 0x0800)
    then Bool.false
    else if ltb skb.linear (eth_len + 20)
    then Bool.false
    else if not (byte_at s (eth_len + 9) == 6)
    then Bool.false
    else if ltb skb.linear (tcp_at s + 20)
    then Bool.false
    else elim target [ none ↦ Bool.false | some port ↦ be16 s (tcp_at s + 2) == port ]

-- struct pkt_event in the slot: the header, the payload, and what the slot held behind it.
unfoldable pub write_event : Skb → Bytes → ℕ → ℕ → Bytes → Bytes
unfolding flags
write_event skb slot copy_len payload_len payload =
    let s = skb.bytes in
    put_uint32 (uint32 (slice s (eth_len + 12) (eth_len + 16)))
    ++ (put_uint32 (uint32 (slice s (eth_len + 16) (eth_len + 20)))
        ++ (put_uint16 (be16 s (tcp_at s))
            ++ (put_uint16 (be16 s (tcp_at s + 2))
                ++ (put_uint16 payload_len
                    ++ (flags (byte_at s (tcp_at s + 13))
                        ∷ 0
                        ∷ (payload ++ drop (16 + copy_len) slot))))))

-- bpf_skb_load_bytes, and the length that is cleared where it fails.
unfoldable pub load_and_write : Skb → Bytes → Bool → ℕ → Bytes
unfolding write_event
load_and_write skb slot loads copy_len =
    if loads
    then write_event skb slot copy_len copy_len
        (take copy_len (drop (hdr_offset skb.bytes) skb.bytes))
    else write_event skb slot copy_len 0 (replicate copy_len 0)

-- Behind the filter: the counter, the length of the payload, the slot. `none` submits nothing.
unfoldable pub capture : Skb → Maps → Helpers → Maps × Option Bytes
unfolding load_and_write
capture skb maps h =
    let counted = record maps { matched = maps.matched + 1 } in
    if leb (length skb.bytes) (hdr_offset skb.bytes) then (counted, none) else elim h.slot [
      | none ↦ (record counted { drops = maps.drops + 1 }, none)
      | some slot ↦ (
        counted,
        some (
            load_and_write skb slot h.loads
              (at_most max_payload (length skb.bytes - hdr_offset skb.bytes))),
      )
    ]

-- The packet itself always goes on (TC_ACT_OK); the result is what the program leaves behind.
unfoldable pub mirror_ingress : Skb → Maps → Helpers → Maps × Option Bytes
unfolding capture passes_filter
mirror_ingress skb maps h =
    if passes_filter skb maps.target_port then capture skb maps h else (maps, none)
