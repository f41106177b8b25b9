-- ===== src/Agent/Wire/Counters.antt =====
-- The kernel's two counters against the records in the ring buffer.
use mirror_agent.Base.{
  ℕ, ◌+◌, Option, List, [], ◌∷◌, ◌≡◌, refl, inl, inr, arith, leb, Bytes, length, Bool-cases,
  Option-cases, ◌∙◌, length-append, if◌then◌else◌,
}
use mirror_agent.Event.Kernel.{Maps, Skb, passes_filter, hdr_offset, mirror_ingress, capture}
use mirror_agent.Agent.Wire.{Packet, submitted, capture_all}

-- How many packets are for the port, and how many of these have no payload.
abbrev passing : Option ℕ → List Packet → ℕ
passing target [] = 0
passing target (p ∷ ps) = (if passes_filter p.skb target then 1 else 0) + passing target ps

abbrev is_bare : Option ℕ → Skb → ℕ
is_bare target skb =
    if passes_filter skb target
    then (if leb (length skb.bytes) (hdr_offset skb.bytes) then 1 else 0)
    else 0

abbrev bare : Option ℕ → List Packet → ℕ
bare target [] = 0
bare target (p ∷ ps) = is_bare target p.skb + bare target ps

pub record Accounts (maps : Maps) (packets : List Packet) (result : Maps × List (ℕ × Bytes))
    : Type 0 where
  port : result.0.target_port ≡ maps.target_port
  all_matched : result.0.matched ≡ maps.matched + passing maps.target_port packets
  balance :
      length result.1 + result.0.drops + bare maps.target_port packets
      ≡ maps.drops + passing maps.target_port packets

one_packet :
    (maps : Maps) (p : Packet)
    → Accounts maps (p ∷ []) (
      (mirror_ingress p.skb maps p.helpers).0,
      submitted p.now (mirror_ingress p.skb maps p.helpers).1,
    )
unfolding mirror_ingress capture
one_packet maps p = elim (Bool-cases (passes_filter p.skb maps.target_port)) [
  | inr other ↦ rw other (record {
    port = refl;
    all_matched = rw other (omega arith);
    balance = rw other (omega arith);
  })
  | inl ours ↦ elim (Bool-cases (leb (length p.skb.bytes) (hdr_offset p.skb.bytes))) [
    | inl empty ↦
        rw (ours, empty)
          (record {
            port = refl;
            all_matched = rw ours (omega arith);
            balance = rw (ours, empty) (omega arith);
          })
    | inr more ↦ elim (Option-cases p.helpers.slot) [
      | inl full ↦
          rw (ours, more, full)
            (record {
              port = refl;
              all_matched = rw ours (omega arith);
              balance = rw (ours, more) (omega arith);
            })
      | inr (slot, free) ↦
          rw (ours, more, free)
            (record {
              port = refl;
              all_matched = rw ours (omega arith);
              balance = rw (ours, more) (omega arith);
            })
    ]
  ]
]

-- Whatever the packets and whatever the kernel's helpers answer: each packet for the configured port is
-- counted as matched, and is submitted as a record, or counted as dropped, or carries no payload.
pub capture_all-Accounts :
    (packets : List Packet) (maps : Maps) → Accounts maps packets (capture_all maps packets)
unfolding capture_all
capture_all-Accounts [] maps = record {
  port = refl;
  all_matched = omega arith;
  balance = omega arith;
}
capture_all-Accounts (p ∷ ps) maps =
    let first = mirror_ingress p.skb maps p.helpers in
    let a = one_packet maps p in
    let b = capture_all-Accounts ps first.0 in
    let matched_rest = rw a.port at b.all_matched in
    let balance_rest = rw a.port at b.balance in
    record {
      port = b.port ∙ a.port;
      all_matched = omega (arith, a.all_matched, matched_rest);
      balance = omega (
        arith,
        a.balance,
        balance_rest,
        length-append (submitted p.now first.1) (capture_all first.0 ps).1,
      );
    }
