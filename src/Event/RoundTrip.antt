-- ===== src/Event/RoundTrip.antt =====
-- What the agent decodes is what the kernel captured.
use mirror_agent.Base.{
  ℕ, zero, suc, ◌+◌, ◌-◌, ◌*◌, ◌/◌, ◌%◌, ◌^◌, ◌≤◌, ◌<◌, true, false, some, List, [], ◌∷◌, ◌++◌, ◌≡◌,
  ◌∙◌, arith, leb, Bytes, length, take, drop, replicate, All, length-append, length-drop,
  length-take_of_le, take-length-append,
}
use mirror_agent.Go.Endian.{uint32, uint16-put_uint16, uint32-put_uint32}
use mirror_agent.Event.{PktEvent, decode, byte_at, at_most, slice, max_payload}
use mirror_agent.Event.Kernel.{
  Skb, Maps, be16, flags, tcp_at, hdr_offset, write_event, passes_filter, mirror_ingress,
}

abbrev pub IsByte : ℕ → Type 0
IsByte b = b < 256

decode_fields :
    (a b c d e f g h i j k l m n o p : ℕ) (rest : Bytes)
    → decode (a ∷ b ∷ c ∷ d ∷ e ∷ f ∷ g ∷ h ∷ i ∷ j ∷ k ∷ l ∷ m ∷ n ∷ o ∷ p ∷ rest)
      ≡ some (record {
        src_ip = a + 256 * b + 65536 * c + 16777216 * d;
        dst_ip = e + 256 * f + 65536 * g + 16777216 * h;
        src_port = i + 256 * j;
        dst_port = k + 256 * l;
        tcp_flags = o;
        payload_len = at_most max_payload (m + 256 * n);
        payload =
            take (at_most (length rest) (at_most max_payload (m + 256 * n))) rest
            ++ replicate
                (max_payload - at_most (length rest) (at_most max_payload (m + 256 * n)))
                0;
      })
unfolding decode
decode_fields a b c d e f g h i j k l m n o p rest = ground arith

All-take {ℓ κ} : {A : Type ℓ} (P : A → Type κ) (n : ℕ) (s : List A) → All P s → All P (take n s)
All-take P zero s h = tt
All-take P (suc n) [] h = tt
All-take P (suc n) (x ∷ s) h = (h.0, All-take P n s h.1)

All-drop {ℓ κ} : {A : Type ℓ} (P : A → Type κ) (n : ℕ) (s : List A) → All P s → All P (drop n s)
All-drop P zero s h = h
All-drop P (suc n) [] h = tt
All-drop P (suc n) (x ∷ s) h = All-drop P n s h.1

byte_at_bound : (s : Bytes) (i : ℕ) → All IsByte s → byte_at s i < 256
byte_at_bound [] i h = omega arith
byte_at_bound (c ∷ s) i h = ground (arith, byte_at_bound s (i - 1))

uint32_bound : (s : Bytes) → All IsByte s → uint32 s < 2 ^ 32
uint32_bound [] h = omega arith
uint32_bound (a ∷ []) h = omega arith
uint32_bound (a ∷ b ∷ []) h = omega arith
uint32_bound (a ∷ b ∷ c ∷ []) h = omega arith
uint32_bound (a ∷ b ∷ c ∷ d ∷ s) h = omega arith

slice_bound : (s : Bytes) (i j : ℕ) → All IsByte s → uint32 (slice s i j) < 2 ^ 32
slice_bound s i j h =
    uint32_bound (slice s i j) (All-take IsByte (j - i) (drop i s) (All-drop IsByte i s h))

be16_bound : (s : Bytes) (i : ℕ) → All IsByte s → be16 s i < 2 ^ 16
be16_bound s i h = omega (arith, byte_at_bound s i h, byte_at_bound s (i + 1) h)

-- The event that describes a captured segment.
abbrev pub event_of : Skb → PktEvent
event_of skb =
    let s = skb.bytes in
    let n = at_most max_payload (length s - hdr_offset s) in
    record {
      src_ip = uint32 (slice s 26 30);
      dst_ip = uint32 (slice s 30 34);
      src_port = be16 s (tcp_at s);
      dst_port = be16 s (tcp_at s + 2);
      tcp_flags = flags (byte_at s (tcp_at s + 13));
      payload_len = n;
      payload = take n (drop (hdr_offset s) s) ++ replicate (max_payload - n) 0;
    }

rest_of :
    (payload rest : Bytes) → at_most (length (payload ++ rest)) (length payload) ≡ length payload
rest_of payload rest = ground (arith, length-append payload rest)

decode-write_event :
    (skb : Skb) (slot : Bytes) (n : ℕ) (payload : Bytes)
    → All IsByte skb.bytes
    → n ≤ max_payload
    → length payload ≡ n
    → decode (write_event skb slot n n payload)
      ≡ some (record (event_of skb) {
        payload_len = n;
        payload = payload ++ replicate (max_payload - n) 0;
      })
unfolding write_event
decode-write_event skb slot n payload bytes small e =
    let s = skb.bytes in
    let l : at_most max_payload (n % 256 + 256 * (n / 256 % 256)) ≡ n = ground arith in
    let c : at_most (length (payload ++ drop (16 + n) slot)) n ≡ n = rw (← e) (rest_of payload _) in
    let t : take n (payload ++ drop (16 + n) slot) ≡ payload =
      rw (← e) (take-length-append payload _) in
    decode_fields _ _ _ _ _ _ _ _ _ _ _ _ _ _ _ _ (payload ++ drop (16 + n) slot)
    ∙ rw (
      l,
      c,
      t,
      uint32-put_uint32 (uint32 (slice s 26 30)) (slice_bound s 26 30 bytes),
      uint32-put_uint32 (uint32 (slice s 30 34)) (slice_bound s 30 34 bytes),
      uint16-put_uint16 (be16 s (tcp_at s)) (be16_bound s (tcp_at s) bytes),
      uint16-put_uint16 (be16 s (tcp_at s + 2)) (be16_bound s (tcp_at s + 2) bytes),
    )

passed-port :
    (skb : Skb) (port : ℕ)
    → passes_filter skb (some port) ≡ true
    → be16 skb.bytes (tcp_at skb.bytes + 2) ≡ port
unfolding passes_filter
passed-port skb port h = ground arith

-- A packet of bytes that passes the filter for a port and has a payload, with a slot free and its
-- bytes loaded: the kernel counts it and submits one record; the agent decodes that record, for
-- whatever the slot held before, to the packet's addresses, ports, flags and payload (the first 1500
-- bytes of it), and its destination port is the one configured.
pub mirror_ingress-decode :
    (skb : Skb) (maps : Maps) (port : ℕ) (slot : Bytes)
    → All IsByte skb.bytes
    → maps.target_port ≡ some port
    → passes_filter skb (some port) ≡ true
    → hdr_offset skb.bytes < length skb.bytes
    → (raw : Bytes) × (mirror_ingress skb maps (record { slot = some slot; loads = true })
        ≡ (record maps { matched = maps.matched + 1 }, some raw))
      × (decode raw ≡ some (event_of skb))
      × ((event_of skb).dst_port ≡ port)
unfolding mirror_ingress
mirror_ingress-decode skb maps port slot bytes e passed more =
    let s = skb.bytes in
    let n = at_most max_payload (length s - hdr_offset s) in
    let payload = take n (drop (hdr_offset s) s) in
    let enough : n ≤ length (drop (hdr_offset s) s) =
      ground (arith, length-drop (hdr_offset s) s) in
    let some_more : leb (length s) (hdr_offset s) ≡ false = ground arith in
    (
      write_event skb slot n n payload,
      rw (e, passed, some_more),
      decode-write_event skb slot n payload bytes (ground arith)
          (length-take_of_le n (drop (hdr_offset s) s) enough),
      passed-port skb port passed,
    )
