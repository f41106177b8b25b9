-- ===== src/Agent/Wire/Delivered.antt =====
-- The events of the callback are the captured packets.
use mirror_agent.Base.{
  ℕ, zero, suc, ◌+◌, ◌-◌, ◌≤◌, Bool, true, false, ◌&&◌, ◌==◌, Option, none, some, List, [], ◌∷◌,
  ◌++◌, ◌≡◌, refl, sym, ap, ◌∙◌, inl, inr, arith, ltb, leb, Bytes, length, take, drop, replicate,
  Bool-cases, if_both, All, length-append, length-drop, length-take_of_le, take-length-append,
  if◌then◌else◌,
}
use mirror_agent.Event.{PktEvent, decode, at_most, max_payload}
use mirror_agent.Event.Kernel.{Skb, Maps, hdr_offset, passes_filter, mirror_ingress, capture}
use mirror_agent.Event.RoundTrip.{IsByte, event_of, mirror_ingress-decode}
use mirror_agent.Tracker.Streams.{StreamKey, key_eq}
use mirror_agent.Tracker.Feed.{is_kept, key_of}
use mirror_agent.Tracker.Trace.{contribution, history}
use mirror_agent.Tracker.Trace.Advance.{IsSized}
use mirror_agent.Tracker.Trace.Streaming.{AllSized}
use mirror_agent.Agent.Wire.{
  Packet, submitted, arrived, capture_all, heard, is_captured, arrivals, flow_of, tcp_payload,
  flow_bytes,
}

-- The helpers do not fail: there is a slot, whatever it holds, and the payload is loaded.
pub record IsServed (p : Packet) : Type 0 where
  pub bytes : All IsByte p.skb.bytes
  pub slot : Bytes
  pub helped : p.helpers ≡ record { slot = some slot; loads = true }

record Handled (port : ℕ) (p : Packet) (result : Maps × Option Bytes) : Type 0 where
  still : result.0.target_port ≡ some port
  delivered :
      (rest : List (ℕ × Bytes))
      → heard (submitted p.now result.1 ++ rest) ≡ (
          if is_captured port p.skb
          then record { now = p.now; event = event_of p.skb } ∷ heard rest
          else heard rest)

none-Handled :
    (port : ℕ) (p : Packet) (m : Maps)
    → m.target_port ≡ some port
    → is_captured port p.skb ≡ false
    → Handled port p (m, none)
none-Handled port p m e c = record { still = e; delivered = λ rest. rw c refl }

some-Handled :
    (port : ℕ) (p : Packet) (m : Maps) (raw : Bytes)
    → m.target_port ≡ some port
    → is_captured port p.skb ≡ true
    → decode raw ≡ some (event_of p.skb)
    → Handled port p (m, some raw)
unfolding heard
some-Handled port p m raw e c d = record {
  still = e;
  delivered = λ rest. ap (λ x. arrived p.now x (heard rest)) d ∙ rw c refl;
}

mirror_ingress-Handled :
    (port : ℕ) (maps : Maps) (p : Packet)
    → maps.target_port ≡ some port
    → IsServed p
    → Handled port p (mirror_ingress p.skb maps p.helpers)
unfolding is_captured
mirror_ingress-Handled port maps p e s = elim (Bool-cases (passes_filter p.skb (some port))) [
  | inr other ↦
      let run : mirror_ingress p.skb maps p.helpers ≡ (maps, none) =
        unfold mirror_ingress in rw (e, other) refl in
      rw run (none-Handled port p maps e (rw other refl))
  | inl ours ↦ elim (Bool-cases (leb (length p.skb.bytes) (hdr_offset p.skb.bytes))) [
    | inl bare ↦
        let run : mirror_ingress p.skb maps p.helpers
            ≡ (record maps { matched = maps.matched + 1 }, none) =
          unfold mirror_ingress capture in rw (e, ours, bare) refl in
        rw run (none-Handled port p (record maps { matched = maps.matched + 1 }) e (ground arith))
    | inr more ↦
        let (raw, run, decoded, same_port) =
          mirror_ingress-decode p.skb maps port s.slot s.bytes e ours (ground arith) in
        let helped : mirror_ingress p.skb maps p.helpers
            ≡ (record maps { matched = maps.matched + 1 }, some raw) =
          rw s.helped run in
        rw helped (
          some-Handled port p (record maps { matched = maps.matched + 1 }) raw e (ground arith)
            decoded)
  ]
]

-- The events that ReadEvents gives to the callback are, one for one and in order, the captured packets,
-- where every packet is made of bytes and the kernel's helpers do not fail.
pub heard-capture_all :
    (port : ℕ) (packets : List Packet) (maps : Maps)
    → maps.target_port ≡ some port
    → All IsServed packets
    → heard (capture_all maps packets).1 ≡ arrivals port packets
unfolding capture_all arrivals
heard-capture_all port [] maps e s = unfold heard in refl
heard-capture_all port (p ∷ ps) maps e (s, ss) =
    let h = mirror_ingress-Handled port maps p e s in
    let m = (mirror_ingress p.skb maps p.helpers).0 in
    h.delivered (capture_all m ps).1 ∙ rw (heard-capture_all port ps m h.still ss) refl

-- How much of the payload is taken.
abbrev taken : Skb → ℕ
taken skb = at_most max_payload (length skb.bytes - hdr_offset skb.bytes)

take_all {ℓ} : {A : Type ℓ} (n : ℕ) (xs : List A) → length xs ≤ n → take n xs ≡ xs
take_all zero [] h = refl
take_all zero (x ∷ xs) h = absurd (omega arith)
take_all (suc n) [] h = refl
take_all (suc n) (x ∷ xs) h = ap (λ t. x ∷ t) (take_all n xs (omega arith))

module _ (skb : Skb) where
  abbrev behind_header : Bytes
  behind_header = drop (hdr_offset skb.bytes) skb.bytes

  length-taken : length (take (taken skb) behind_header) ≡ taken skb
  length-taken =
      length-take_of_le (taken skb) behind_header
        (ground (arith, length-drop (hdr_offset skb.bytes) skb.bytes))

  taken_payload : take (taken skb) behind_header ≡ tcp_payload skb
  taken_payload = elim (Bool-cases (ltb max_payload (length skb.bytes - hdr_offset skb.bytes))) [
    | inl more ↦ rw more refl
    | inr fits ↦ rw fits (
        take_all (length skb.bytes - hdr_offset skb.bytes) behind_header
          (omega (arith, length-drop (hdr_offset skb.bytes) skb.bytes))
        ∙ sym (
            take_all max_payload behind_header
              (ground (arith, length-drop (hdr_offset skb.bytes) skb.bytes))))
  ]

  segment_taken : take (event_of skb).payload_len (event_of skb).payload ≡ tcp_payload skb
  segment_taken =
      ap (λ n. take n (event_of skb).payload) (sym length-taken)
      ∙ take-length-append (take (taken skb) behind_header) _
      ∙ taken_payload

  event_of-IsSized : IsSized (event_of skb)
  event_of-IsSized = omega (
    arith,
    length-taken,
    length-append (take (taken skb) behind_header) (replicate (max_payload - taken skb) 0),
  )

contribution_parts :
    (k : StreamKey) (ev : PktEvent) (segment : Bytes)
    → take ev.payload_len ev.payload ≡ segment
    → (ev.payload_len == 0) ≡ false
    → contribution k ev ≡ (if key_eq (key_of ev) k && is_kept segment then segment else [])
unfolding contribution
contribution_parts k ev segment e some_bytes = elim (Bool-cases (key_eq (key_of ev) k)) [
  | inl own ↦ rw (e, some_bytes, own) refl
  | inr foreign ↦ rw (e, some_bytes, foreign) refl
]

contribution_lem :
    (port : ℕ) (k : StreamKey) (skb : Skb)
    → is_captured port skb ≡ true
    → contribution k (event_of skb)
      ≡ (if key_eq (flow_of skb) k && is_kept (tcp_payload skb) then tcp_payload skb else [])
contribution_lem port k skb c =
    contribution_parts k (event_of skb) (tcp_payload skb) (segment_taken skb)
      (unfold is_captured in ground (arith, c))

if_append : (b : Bool) (x y : Bytes) → (if b then x else []) ++ y ≡ (if b then x ++ y else y)
if_append true x y = refl
if_append false x y = refl

-- What the callback hears of a flow are the payloads of its captured packets.
pub history-arrivals :
    (port : ℕ) (k : StreamKey) (packets : List Packet)
    → history k (arrivals port packets) ≡ flow_bytes port k packets
unfolding arrivals flow_bytes history
history-arrivals port k [] = refl
history-arrivals port k (p ∷ ps) = elim (Bool-cases (is_captured port p.skb)) [
  | inl ours ↦ rw ours (
      ap (λ x. x ++ history k (arrivals port ps)) (contribution_lem port k p.skb ours)
      ∙ if_append (key_eq (flow_of p.skb) k && is_kept (tcp_payload p.skb)) (tcp_payload p.skb) _
      ∙ rw (history-arrivals port k ps) refl)
  | inr other ↦ rw other (history-arrivals port k ps)
]

pub arrivals-AllSized : (port : ℕ) (packets : List Packet) → AllSized (arrivals port packets)
unfolding arrivals
arrivals-AllSized port [] = tt
arrivals-AllSized port (p ∷ ps) =
    if_both AllSized (is_captured port p.skb) (event_of-IsSized p.skb, arrivals-AllSized port ps)
      (arrivals-AllSized port ps)
