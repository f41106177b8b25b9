-- ===== src/Agent/Machine/Progress.antt =====
-- The agent does not get stuck: what every goroutine has begun can be brought to its end.
use mirror_agent.Base.{
  ℕ, ◌+◌, List, [], ◌∷◌, ◌++◌, ◌≡◌, ◌≢◌, ◌⊎◌, refl, sym, ap, ◌∙◌, inl, inr, arith, Bytes, All,
  append_assoc, ◌<◌,
}
use mirror_agent.Go.Panic.{Run, returned, panicked}
use mirror_agent.Routes.{Table}
use mirror_agent.Mirror.{Network}
use mirror_agent.Mirror.Concurrent.{Counter, add_one}
use mirror_agent.Tracker.Request.{CapturedRequest}
use mirror_agent.Tracker.Batch.{Stop, starved, crashed, exhausted, parse_http_requests}
use mirror_agent.Tracker.Streams.{StreamKey}
use mirror_agent.Tracker.Feed.{Tracker, trim, count_error}
use mirror_agent.Tracker.Reaper.{window}
use mirror_agent.Agent.Machine.Race.{panics-late}
use mirror_agent.Agent.Machine.Sending.{unbegun, mirrored}
use mirror_agent.Agent.Machine.Counted.{IsCounted, Reachable-IsCounted}
use mirror_agent.Agent.Machine.{
  Phase, idle, parsing, trimming, ended, Machine, on_requests, on_stop, parse, parsed, trimmed,
  count, Steps, here, next, Reachable,
}

-- Where the callback can be once the parser has answered on what Feed took at `since`.
data Answered (since : ℕ) : Phase → Type 0 where
  none_found : Answered since idle
  some_found :
      (key : StreamKey) (snapshot : Bytes) (reqs : List CapturedRequest) (consumed : ℕ)
      → Answered since (trimming key snapshot since reqs consumed)

on_requests-Answered :
    (t : Tracker) (key : StreamKey) (snapshot : Bytes) (since : ℕ) (rs : List CapturedRequest)
    (consumed : ℕ)
    → Answered since (on_requests t key snapshot since rs consumed).1
unfolding on_requests
on_requests-Answered t key snapshot since [] consumed = none_found
on_requests-Answered t key snapshot since (r ∷ rs) consumed = some_found key snapshot _ consumed

on_stop-Answered :
    (why : Stop) (t : Tracker) (key : StreamKey) (snapshot : Bytes) (since : ℕ)
    (rs : List CapturedRequest) (consumed : ℕ)
    → why ≢ crashed
    → Answered since (on_stop why t key snapshot since rs consumed).1
unfolding on_stop
on_stop-Answered crashed t key snapshot since rs consumed ne = elim (ne refl) [ ]
on_stop-Answered starved t key snapshot since rs consumed ne =
    on_requests-Answered t key snapshot since rs consumed
on_stop-Answered exhausted t key snapshot since rs consumed ne =
    on_requests-Answered t key snapshot since rs consumed
on_stop-Answered Stop.failed t key snapshot since rs consumed ne =
    on_requests-Answered (record t { stats = count_error Stop.failed t.stats }) key snapshot since
      rs consumed

Stop-cases : (why : Stop) → (why ≡ crashed) ⊎ (why ≢ crashed)
Stop-cases crashed = inl refl
Stop-cases starved = inr (λ h. cc)
Stop-cases exhausted = inr (λ h. cc)
Stop-cases Stop.failed = inr (λ h. cc)

Run-cases {ℓ} : {A : Type ℓ} (r : Run A) → ((a : A) × (r ≡ returned a)) ⊎ (r ≡ panicked)
Run-cases (returned a) = inl (a, refl)
Run-cases panicked = inr refl

-- The callback is inside of Feed with what it took at `since`.
abbrev pub IsTakenAt : ℕ → Phase → Type 0
IsTakenAt since (parsing key snapshot taken) = taken ≡ since
IsTakenAt since (trimming key snapshot taken reqs consumed) = taken ≡ since
IsTakenAt since idle = ⊥
IsTakenAt since ended = ⊥

-- What a process can die of: it has, the parser panics on what Feed took, or Feed took it more than
-- ten seconds ago.
pub data IsDoomed (m : Machine) : Type 0 where
  over : m.phase ≡ ended → IsDoomed m
  bad_bytes :
      (key : StreamKey) (snapshot : Bytes) (since : ℕ)
      → m.phase ≡ parsing key snapshot since
      → (parse_http_requests snapshot).stop ≡ crashed
      → IsDoomed m
  overdue : (since : ℕ) → IsTakenAt since m.phase → since + window < m.clock → IsDoomed m

-- Each Send with nothing left to add.
abbrev emptied : List (List Counter) → List (List Counter)
emptied [] = []
emptied (cs ∷ css) = [] ∷ emptied css

emptied-All : (css : List (List Counter)) → All (λ cs. cs ≡ []) (emptied css)
emptied-All [] = tt
emptied-All (cs ∷ css) = (refl, emptied-All css)

unbegun-emptied : (css : List (List Counter)) → unbegun (emptied css) ≡ 0
unbegun-emptied [] = refl
unbegun-emptied (cs ∷ css) = omega (arith, unbegun-emptied css)

pub record IsSettled (m : Machine) : Type 0 where
  pub waits : m.phase ≡ idle
  pub sent : All (λ cs. cs ≡ []) m.sends
  pub counted : mirrored m.tracker.stats ≡ m.tracker.stats.reqs_assembled

emptied-IsSettled :
    (m : Machine) (css : List (List Counter))
    → IsCounted m
    → m.phase ≡ idle
    → m.sends ≡ emptied css
    → IsSettled m
emptied-IsSettled m css c p e =
    let balanced = rw p at c.balanced in
    record {
      waits = p;
      sent = rw e (emptied-All css);
      counted = omega (arith, balanced, ap unbegun e, unbegun-emptied css);
    }

module _ (net : Network) (base : Bytes) (table : Table) where
  Steps-trans :
      {s t u : Machine}
      → Steps net base table s t
      → Steps net base table t u
      → Steps net base table s u
  Steps-trans a here = a
  Steps-trans a (next b step) = next (Steps-trans a b) step

  -- One Send makes all its additions.
  drain_one :
      (m : Machine) (before after : List (List Counter)) (cs : List Counter)
      → m.phase ≢ ended
      → m.sends ≡ before ++ (cs ∷ after)
      → (n : Machine) × Steps net base table m n
        × (n.phase ≡ m.phase)
        × (n.sends ≡ before ++ ([] ∷ after))
  drain_one m before after [] p e = (m, here, refl, e)
  drain_one m before after (c ∷ cs) p e =
      let m' : Machine = record m {
        tracker = record m.tracker { stats = add_one c m.tracker.stats };
        sends = before ++ (cs ∷ after);
      } in
      let (n, steps, phase, sends) = drain_one m' before after cs p refl in
      (n, Steps-trans (next here (count before after c cs p e)) steps, phase, sends)

  drain_from :
      (m : Machine) (before after : List (List Counter))
      → m.phase ≢ ended
      → m.sends ≡ before ++ after
      → (n : Machine) × Steps net base table m n
        × (n.phase ≡ m.phase)
        × (n.sends ≡ before ++ emptied after)
  drain_from m before [] p e = (m, here, refl, e)
  drain_from m before (cs ∷ after) p e =
      let (n, steps, phase, sends) = drain_one m before after cs p e in
      let (o, steps', phase', sends') =
        drain_from n (before ++ ([] ∷ [])) after (rw phase p)
          (sends ∙ sym (append_assoc before ([] ∷ []) after)) in
      (
        o,
        Steps-trans steps steps',
        phase' ∙ phase,
        sends' ∙ append_assoc before ([] ∷ []) (emptied after),
      )

  trim_step :
      (m : Machine) (since : ℕ) (phase : Phase)
      → Reachable net base table m
      → m.phase ≡ phase
      → Answered since phase
      → (since + window < m.clock) ⊎ ((n : Machine) × Steps net base table m n × (n.phase ≡ idle))
  trim_step m since _ r e none_found = inr (m, here, e)
  trim_step m since _ r e (some_found key snapshot reqs consumed) =
      elim (Run-cases (trim m.tracker.streams key snapshot consumed)) [
        | inl (streams, q) ↦
            inr (_, next here (trimmed key snapshot since reqs consumed streams e q), refl)
        | inr q ↦ inl (panics-late net base table m key snapshot since reqs consumed r e q).0
      ]

  finish_callback :
      (m : Machine) (phase : Phase)
      → Reachable net base table m
      → m.phase ≡ phase
      → IsDoomed m ⊎ ((n : Machine) × Steps net base table m n × (n.phase ≡ idle))
  finish_callback m idle r e = inr (m, here, e)
  finish_callback m ended r e = inl (over e)
  finish_callback m (trimming key snapshot since reqs consumed) r e =
      elim (trim_step m since _ r e (some_found key snapshot reqs consumed)) [
        | inl late ↦ inl (overdue since (rw e refl) late)
        | inr done ↦ inr done
      ]
  finish_callback m (parsing key snapshot since) r e =
      elim (Stop-cases (parse_http_requests snapshot).stop) [
        | inl bad ↦ inl (bad_bytes key snapshot since e bad)
        | inr ok ↦
            let m' : Machine = record m {
              tracker = (parse m.tracker key snapshot since).0;
              phase = (parse m.tracker key snapshot since).1;
            } in
            let step = parsed key snapshot since e in
            elim (trim_step m' since m'.phase (next r step) refl
              (unfold parse in on_stop-Answered _ m.tracker key snapshot since _ _ ok)) [
                | inl late ↦ inl (overdue since (rw e refl) late)
                | inr (n, steps, q) ↦ inr (n, Steps-trans (next here step) steps, q)
              ]
      ]

  -- The agent never gets stuck. From whatever it can come to, unless the process has panicked, the
  -- parser panics on the bytes that Feed took, or Feed took them more than ten seconds ago, it can come
  -- to where the callback waits for the next event, every Send has made all its additions, and each
  -- request that Feed has assembled is counted as skipped or as sent.
  pub Reachable-settles :
      (m : Machine)
      → Reachable net base table m
      → IsDoomed m ⊎ ((n : Machine) × Steps net base table m n × IsSettled n)
  Reachable-settles m r = elim (finish_callback m m.phase r refl) [
    | inl doomed ↦ inl doomed
    | inr (n, steps, q) ↦
        let (o, steps', phase, sends) = drain_from n [] n.sends (rw q (λ h. cc)) refl in
        let all_steps = Steps-trans steps steps' in
        inr (
          o,
          all_steps,
          emptied-IsSettled o n.sends (Reachable-IsCounted net base table (Steps-trans r all_steps))
              (phase ∙ q) sends,
        )
  ]
