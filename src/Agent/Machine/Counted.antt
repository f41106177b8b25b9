-- ===== src/Agent/Machine/Counted.antt =====
-- The counters at any moment of the interleaved agent.
use mirror_agent.Base.{
  ℕ, ◌+◌, ◌≤◌, List, [], ◌∷◌, ◌++◌, ◌≡◌, refl, sym, ap, ◌∙◌, arith, ◌==◌, length, Bytes, if_both,
  All, All-append,
}
use mirror_agent.Go.Panic.{Run, returned, panicked}
use mirror_agent.Stats.{Stats}
use mirror_agent.Event.{PktEvent}
use mirror_agent.Routes.{Table}
use mirror_agent.Mirror.{Network}
use mirror_agent.Mirror.Concurrent.{Counter, add_one, results}
use mirror_agent.Tracker.Request.{CapturedRequest}
use mirror_agent.Tracker.Batch.{Stop, starved, crashed, exhausted}
use mirror_agent.Tracker.Streams.{StreamKey, Streams}
use mirror_agent.Tracker.Feed.{
  Tracker, key_of, payload_of, is_kept, with_source, count_error, received,
}
use mirror_agent.Tracker.Feed.Accounting.{length-map}
use mirror_agent.Tracker.Reaper.{reap}
use mirror_agent.Agent.Machine.Sending.{
  unbegun, unanswered, IsRest, mirrored, unbegun-append, unanswered-append, add_one-counts,
  IsRest-step, All-parts, spawn_fresh,
}
use mirror_agent.Agent.Machine.{
  Phase, idle, parsing, trimming, ended, Machine, take_segment, on_payload, first_half, on_requests,
  on_stop, parse, spawn, Step, wait, receive, parsed, trimmed, trim_panics, tick, count, here, next,
  Reachable,
}

-- The requests that Feed has counted and not yet handed on.
abbrev pub held : Phase → ℕ
held idle = 0
held (parsing key snapshot since) = 0
held (trimming key snapshot since reqs consumed) = length reqs
held ended = 0

-- Once the process has ended, what Feed held is lost.
abbrev Covers : Phase → ℕ → ℕ → Type 0
Covers ended n total = n ≤ total
Covers phase n total = n + held phase ≡ total

abbrev Balanced : Phase → Stats → ℕ → Type 0
Balanced phase s pending = Covers phase (mirrored s + pending) s.reqs_assembled

pub record IsCounted (m : Machine) : Type 0 where
  pub balanced :
      Covers m.phase (mirrored m.tracker.stats + unbegun m.sends) m.tracker.stats.reqs_assembled
  pub answered : results m.tracker.stats + unanswered m.sends ≤ m.tracker.stats.mirrors_sent
  pub rests : All IsRest m.sends

-- What Send counts is as it was.
abbrev Same : Stats → Stats → Type 0
Same a b = (mirrored b ≡ mirrored a) × (b.mirrors_sent ≡ a.mirrors_sent) × (results b ≡ results a)

-- A step of the callback, with `n` Sends that have not begun.
record Keeps (a : Stats) (n : ℕ) (result : Tracker × Phase) : Type 0 where
  balanced : Balanced result.1 result.0.stats n
  same : Same a result.0.stats

take_segment-Keeps :
    (t : Tracker) (now : ℕ) (key : StreamKey) (segment : Bytes) (n : ℕ)
    → Balanced idle t.stats n
    → Keeps t.stats n (take_segment t now key segment)
unfolding take_segment
take_segment-Keeps t now key segment n b =
    if_both (Keeps t.stats n) (is_kept segment) (record { balanced = b; same = (refl, refl, refl) })
      (record { balanced = b; same = (refl, refl, refl) })

on_payload-Keeps :
    (t : Tracker) (now : ℕ) (key : StreamKey) (payload : Run Bytes) (n : ℕ)
    → Balanced idle t.stats n
    → Keeps t.stats n (on_payload t now key payload)
unfolding on_payload
on_payload-Keeps t now key panicked n b = record {
  balanced = omega arith;
  same = (refl, refl, refl);
}
on_payload-Keeps t now key (returned segment) n b = take_segment-Keeps t now key segment n b

first_half-Keeps :
    (t : Tracker) (now : ℕ) (ev : PktEvent) (n : ℕ)
    → Balanced idle t.stats n
    → Keeps t.stats n (first_half t now ev)
unfolding first_half
first_half-Keeps t now ev n b =
    if_both (Keeps t.stats n) (ev.payload_len == 0)
      (record { balanced = b; same = (refl, refl, refl) })
      (let k = on_payload-Keeps (received t) now (key_of ev) (payload_of ev) n b in
        record { balanced = k.balanced; same = k.same })

on_requests-Keeps :
    (t : Tracker) (key : StreamKey) (snapshot : Bytes) (since : ℕ) (rs : List CapturedRequest)
    (consumed n : ℕ)
    → Balanced idle t.stats n
    → Keeps t.stats n (on_requests t key snapshot since rs consumed)
unfolding on_requests
on_requests-Keeps t key snapshot since [] consumed n b = record {
  balanced = b;
  same = (refl, refl, refl);
}
on_requests-Keeps t key snapshot since (r ∷ rs) consumed n b = record {
  balanced = omega (arith, length-map (with_source key.src_ip) rs);
  same = (refl, refl, refl);
}

on_stop-Keeps :
    (why : Stop) (t : Tracker) (key : StreamKey) (snapshot : Bytes) (since : ℕ)
    (rs : List CapturedRequest) (consumed n : ℕ)
    → Balanced idle t.stats n
    → Keeps t.stats n (on_stop why t key snapshot since rs consumed)
unfolding on_stop
on_stop-Keeps crashed t key snapshot since rs consumed n b = record {
  balanced = omega arith;
  same = (refl, refl, refl);
}
on_stop-Keeps starved t key snapshot since rs consumed n b =
    on_requests-Keeps t key snapshot since rs consumed n b
on_stop-Keeps exhausted t key snapshot since rs consumed n b =
    on_requests-Keeps t key snapshot since rs consumed n b
on_stop-Keeps Stop.failed t key snapshot since rs consumed n b =
    let t' = record t { stats = count_error Stop.failed t.stats } in
    let k = on_requests-Keeps t' key snapshot since rs consumed n b in
    record { balanced = k.balanced; same = k.same }

Covers-eq :
    (phase : Phase) (n n' total total' : ℕ)
    → n ≡ n'
    → total ≡ total'
    → Covers phase n total
    → Covers phase n' total'
Covers-eq idle n n' total total' e f h = omega arith
Covers-eq (parsing key snapshot since) n n' total total' e f h = omega arith
Covers-eq (trimming key snapshot since reqs consumed) n n' total total' e f h = omega arith
Covers-eq ended n n' total total' e f h = omega arith

module _ (net : Network) (base : Bytes) (table : Table) where
  callback-IsCounted :
      (m : Machine) (result : Tracker × Phase)
      → IsCounted m
      → Keeps m.tracker.stats (unbegun m.sends) result
      → IsCounted (record m { tracker = result.0; phase = result.1 })
  callback-IsCounted m result i k = record {
    balanced = k.balanced;
    answered = omega (arith, i.answered, k.same);
    rests = i.rests;
  }

  count-IsCounted :
      (m : Machine) (before after : List (List Counter)) (c : Counter) (cs : List Counter)
      → m.sends ≡ before ++ ((c ∷ cs) ∷ after)
      → IsCounted m
      → IsCounted (record m {
        tracker = record m.tracker { stats = add_one c m.tracker.stats };
        sends = before ++ (cs ∷ after);
      })
  count-IsCounted m before after c cs e i =
      let (all_before, (rest, all_after)) = All-parts IsRest before _ (rw e at i.rests) in
      let (none_begins, fewer_owed, rest') = IsRest-step c cs rest in
      let (mirrored', results', sent', assembled') = add_one-counts c m.tracker.stats in
      let begun = ap unbegun e ∙ unbegun-append before ((c ∷ cs) ∷ after) in
      let owed = ap unanswered e ∙ unanswered-append before ((c ∷ cs) ∷ after) in
      record {
        balanced =
            Covers-eq m.phase _ _ _ _
              (omega (arith, none_begins, mirrored', begun, unbegun-append before (cs ∷ after)))
              (sym assembled') i.balanced;
        answered = omega (
          arith,
          i.answered,
          fewer_owed,
          results',
          sent',
          owed,
          unanswered-append before (cs ∷ after),
        );
        rests = All-append IsRest before (cs ∷ after) all_before (rest', all_after);
      }

  trimmed-IsCounted :
      (m : Machine) (reqs : List CapturedRequest) (streams : Streams)
      → mirrored m.tracker.stats + unbegun m.sends + length reqs ≡ m.tracker.stats.reqs_assembled
      → IsCounted m
      → IsCounted (record m {
        tracker = record m.tracker { streams = streams };
        phase = idle;
        sends = spawn net base table reqs ++ m.sends;
      })
  trimmed-IsCounted m reqs streams b i =
      let new = spawn net base table reqs in
      let (begins_all, owes_none, rests) = spawn_fresh net base table reqs in
      record {
        balanced = omega (arith, b, begins_all, unbegun-append new m.sends);
        answered = omega (arith, i.answered, owes_none, unanswered-append new m.sends);
        rests = All-append IsRest new m.sends rests i.rests;
      }

  Step-IsCounted : {m n : Machine} → Step net base table m n → IsCounted m → IsCounted n
  Step-IsCounted (wait d) i = record {
    balanced = i.balanced;
    answered = i.answered;
    rests = i.rests;
  }
  Step-IsCounted {m} (receive ev p) i =
      callback-IsCounted m (first_half m.tracker m.clock ev) i
        (first_half-Keeps m.tracker m.clock ev _ (rw p at i.balanced))
  Step-IsCounted {m} (parsed key snapshot since p) i =
      unfold parse in
      callback-IsCounted m _ i
        (on_stop-Keeps _ m.tracker key snapshot since _ _ _ (rw p at i.balanced))
  Step-IsCounted {m} (trimmed key snapshot since reqs consumed streams p e) i =
      trimmed-IsCounted m reqs streams (rw p at i.balanced) i
  Step-IsCounted {m} (trim_panics key snapshot since reqs consumed p e) i = record {
    balanced = let b = rw p at i.balanced in omega arith;
    answered = i.answered;
    rests = i.rests;
  }
  Step-IsCounted {m} (tick p) i =
      unfold reap in record { balanced = i.balanced; answered = i.answered; rests = i.rests }
  Step-IsCounted {m} (count before after c cs p e) i = count-IsCounted m before after c cs e i

  -- At any moment, however the goroutines interleave: of the requests counted as assembled, those that
  -- are counted as skipped or as sent, those whose Send has not begun, and those that Feed still holds
  -- are all (once the process has panicked, what Feed held is missing); and no more results are counted
  -- than requests were sent, less the Sends that still owe theirs.
  pub Reachable-IsCounted : {m : Machine} → Reachable net base table m → IsCounted m
  Reachable-IsCounted here = record { balanced = refl; answered = omega arith; rests = tt }
  Reachable-IsCounted (next r s) = Step-IsCounted s (Reachable-IsCounted r)
