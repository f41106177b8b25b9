-- ===== src/Agent/Machine/Race.antt =====
-- The reaper against the callback, in any interleaving.
use mirror_agent.Base.{
  ℕ, ◌+◌, ◌<◌, List, ◌≡◌, inl, inr, arith, leb, length, Bytes, Bool-cases, Option-cases,
}
use mathlib.Core.Path.{subst}
use mirror_agent.Go.Panic.{returned, panicked, returned-eq}
use mirror_agent.Routes.{Table}
use mirror_agent.Mirror.{Network}
use mirror_agent.Tracker.Request.{CapturedRequest}
use mirror_agent.Tracker.Streams.{StreamKey, Streams, find}
use mirror_agent.Tracker.Feed.{Tracker, trim}
use mirror_agent.Tracker.Reaper.{window, reap}
use mirror_agent.Tracker.Reaper.Laws.{IsMap, put-IsMap, delete-IsMap, fresh-IsMap}
use mirror_agent.Agent.Machine.{
  Phase, parsing, trimming, Machine, first_half, parse, Step, wait, receive, parsed, trimmed,
  trim_panics, tick, count, Steps, here, next, Reachable,
}
use mirror_agent.Agent.Machine.Held.{
  Holds, Relies, nothing_idle, nothing_ended, on_parsing, on_trimming, Leads, Relies-map,
  Holds-wait, Holds-reap, first_half-Leads, on_stop-Leads,
}

record IsHeld (m : Machine) : Type 0 where
  mapped : IsMap m.tracker.streams
  relies : Relies m.clock m.tracker.streams m.phase

trim-IsMap :
    (m : Streams) (key : StreamKey) (snapshot : Bytes) (consumed : ℕ) {m' : Streams}
    → IsMap m
    → trim m key snapshot consumed ≡ returned m'
    → IsMap m'
unfolding trim
trim-IsMap m key snapshot consumed {m'} mapped e =
    elim (Bool-cases (leb (length snapshot) consumed)) [
      | inl all ↦ subst IsMap (returned-eq (rw all at e)) (delete-IsMap m key mapped)
      | inr part ↦ elim (Option-cases (find m key)) [
        | inl gone ↦ cc (rw (part, gone) at e)
        | inr (s, found) ↦
            subst IsMap (returned-eq (rw (part, found) at e)) (put-IsMap m key _ mapped)
      ]
    ]

-- What a phase with a key holds.
Relies-parsing :
    (clock : ℕ) (m : Streams) (phase : Phase) (key : StreamKey) (snapshot : Bytes) (since : ℕ)
    → phase ≡ parsing key snapshot since
    → Relies clock m phase
    → Holds clock m key snapshot since
Relies-parsing clock m _ key snapshot since e nothing_idle = cc
Relies-parsing clock m _ key snapshot since e nothing_ended = cc
Relies-parsing clock m _ key snapshot since e (on_trimming _ _ _ _ _ h) = cc
Relies-parsing clock m _ key snapshot since e (on_parsing k s n h) =
    let a : k ≡ key = cc in
    let b : s ≡ snapshot = cc in let c : n ≡ since = cc in rw (← a, ← b, ← c) h

Relies-trimming :
    (clock : ℕ) (m : Streams) (phase : Phase) (key : StreamKey) (snapshot : Bytes) (since : ℕ)
    (reqs : List CapturedRequest) (consumed : ℕ)
    → phase ≡ trimming key snapshot since reqs consumed
    → Relies clock m phase
    → Holds clock m key snapshot since
Relies-trimming clock m _ key snapshot since reqs consumed e nothing_idle = cc
Relies-trimming clock m _ key snapshot since reqs consumed e nothing_ended = cc
Relies-trimming clock m _ key snapshot since reqs consumed e (on_parsing _ _ _ h) = cc
Relies-trimming clock m _ key snapshot since reqs consumed e (on_trimming k s n _ _ h) =
    let a : k ≡ key = cc in
    let b : s ≡ snapshot = cc in let c : n ≡ since = cc in rw (← a, ← b, ← c) h

-- What has not gone can be trimmed, and so can anything consumed whole.
trim-Holds :
    (clock : ℕ) (m : Streams) (key : StreamKey) (snapshot : Bytes) (since consumed : ℕ)
    → trim m key snapshot consumed ≡ panicked
    → Holds clock m key snapshot since
    → (since + window < clock) × (consumed < length snapshot)
unfolding trim
trim-Holds clock m key snapshot since consumed e h =
    elim (Bool-cases (leb (length snapshot) consumed)) [
      | inl all ↦ cc (rw all at e)
      | inr part ↦ elim h [
        | inl found ↦ cc (rw (part, found) at e)
        | inr (gone, late) ↦ (late, ground arith)
      ]
    ]

module _ (net : Network) (base : Bytes) (table : Table) where
  callback-IsHeld :
      (m : Machine) (result : Tracker × Phase)
      → Leads m.clock result
      → IsHeld (record m { tracker = result.0; phase = result.1 })
  callback-IsHeld m result l = record { mapped = l.mapped; relies = l.relies }

  Step-IsHeld : {m n : Machine} → Step net base table m n → IsHeld m → IsHeld n
  Step-IsHeld {m} (wait d) h = record {
    mapped = h.mapped;
    relies =
        Relies-map m.clock (m.clock + d) _ _ m.phase (Holds-wait m.clock d m.tracker.streams)
          h.relies;
  }
  Step-IsHeld {m} (receive ev p) h =
      callback-IsHeld m (first_half m.tracker m.clock ev)
        (first_half-Leads m.tracker m.clock ev h.mapped)
  Step-IsHeld {m} (parsed key snapshot since p) h =
      unfold parse in
      callback-IsHeld m _ (
        on_stop-Leads m.clock key snapshot since _ m.tracker _ _ h.mapped
          (Relies-parsing m.clock _ m.phase key snapshot since p h.relies))
  Step-IsHeld {m} (trimmed key snapshot since reqs consumed streams p e) h = record {
    mapped = trim-IsMap m.tracker.streams key snapshot consumed h.mapped e;
    relies = nothing_idle;
  }
  Step-IsHeld (trim_panics key snapshot since reqs consumed p e) h = record {
    mapped = h.mapped;
    relies = nothing_ended;
  }
  Step-IsHeld {m} (tick p) h = record {
    mapped = unfold reap in fresh-IsMap m.clock m.tracker.streams h.mapped;
    relies =
        Relies-map m.clock m.clock _ _ m.phase
          (λ key snapshot since. Holds-reap m.clock m.tracker key snapshot since h.mapped) h.relies;
  }
  Step-IsHeld (count before after c cs p e) h = record { mapped = h.mapped; relies = h.relies }

  Steps-IsHeld : {m n : Machine} → Steps net base table m n → IsHeld m → IsHeld n
  Steps-IsHeld here h = h
  Steps-IsHeld (next steps step) h = Step-IsHeld step (Steps-IsHeld steps h)

  Reachable-IsHeld : {m : Machine} → Reachable net base table m → IsHeld m
  Reachable-IsHeld steps = Steps-IsHeld steps (record { mapped = tt; relies = nothing_idle })

  -- However the goroutines interleave, the second critical section of Feed dereferences a nil pointer
  -- only if by then more than ten seconds have passed since the segment was taken, and not all of the
  -- bytes were consumed.
  pub panics-late :
      (m : Machine) (key : StreamKey) (snapshot : Bytes) (since : ℕ) (reqs : List CapturedRequest)
      (consumed : ℕ)
      → Reachable net base table m
      → m.phase ≡ trimming key snapshot since reqs consumed
      → trim m.tracker.streams key snapshot consumed ≡ panicked
      → (since + window < m.clock) × (consumed < length snapshot)
  panics-late m key snapshot since reqs consumed steps p e =
      trim-Holds m.clock _ key snapshot since consumed e (
        Relies-trimming m.clock _ m.phase key snapshot since reqs consumed p
          (Reachable-IsHeld steps).relies)
