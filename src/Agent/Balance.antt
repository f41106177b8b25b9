-- ===== src/Agent/Balance.antt =====
-- The counters of the whole agent.
use mirror_agent.Base.{
  ℕ, suc, ◌+◌, List, [], ◌∷◌, ◌++◌, ◌≡◌, refl, ap, ◌∙◌, arith, Bytes, length, length-append,
}
use mirror_agent.Go.Json.{Json}
use mirror_agent.Go.Panic.{Run, returned, panicked, bind-eq-returned}
use mirror_agent.Stats.{Stats}
use mirror_agent.Routes.{Table}
use mirror_agent.Mirror.{Network, send}
use mirror_agent.Mirror.Counting.{
  Outcome, skipped, got_2xx, got_4xx, got_5xx, failed, other, count, outcome_of, stats-send,
}
use mirror_agent.Mirror.Concurrent.{send_all, send_all_balance}
use mirror_agent.Tracker.Request.{CapturedRequest}
use mirror_agent.Tracker.Streams.{StreamKey}
use mirror_agent.Tracker.Feed.{Tracker, key_of}
use mirror_agent.Tracker.Feed.Accounting.{Counts, feed-Counts}
use mirror_agent.Tracker.Trace.{Sent, after, tag}
use mirror_agent.Tracker.Reaper.{reap}
use mirror_agent.Tracker.Live.{Happening, fed, ticked, arrivals_of, live}
use mirror_agent.Agent.{agent}

-- What a run has added to the counters, for its events and the requests that it handed on.
pub record Balances (a : Stats) (events requests : ℕ) (b : Stats) : Type 0 where
  pub received : b.packets_received ≡ a.packets_received + events
  pub assembled : b.reqs_assembled ≡ a.reqs_assembled + requests
  pub mirrored : b.mirrors_skipped + b.mirrors_sent ≡ a.mirrors_skipped + a.mirrors_sent + requests

count-Feeds :
    (o : Outcome) (s : Stats)
    → ((count o s).packets_received ≡ s.packets_received)
      × ((count o s).reqs_assembled ≡ s.reqs_assembled)
count-Feeds skipped s = (refl, refl)
count-Feeds got_2xx s = (refl, refl)
count-Feeds got_4xx s = (refl, refl)
count-Feeds got_5xx s = (refl, refl)
count-Feeds failed s = (refl, refl)
count-Feeds other s = (refl, refl)

abbrev returned_value : Tracker × Sent → Run (Tracker × Sent) → Tracker × Sent
returned_value d (returned v) = v
returned_value d panicked = d

length-tag : (k : StreamKey) (reqs : List CapturedRequest) → length (tag k reqs) ≡ length reqs
unfolding tag
length-tag k [] = refl
length-tag k (r ∷ reqs) = omega (arith, length-tag k reqs)

returned-pair :
    {t u : Tracker} {xs ys : Sent}
    → ◌≡◌ {A = Run (Tracker × Sent)} (returned (t, xs)) (returned (u, ys))
    → (t ≡ u) × (xs ≡ ys)
returned-pair {t} {xs} e =
    let p = ap (returned_value (t, xs)) e in
    (ap (λ (z : Tracker × Sent). z.0) p, ap (λ (z : Tracker × Sent). z.1) p)

Balances-trans :
    (a b c : Stats) (xs ys : Sent) {n : ℕ}
    → Balances a 1 (length xs) b
    → Balances b n (length ys) c
    → Balances a (suc n) (length (xs ++ ys)) c
Balances-trans a b c xs ys p q = record {
  received = omega (arith, p.received, q.received);
  assembled = omega (arith, p.assembled, q.assembled, length-append xs ys);
  mirrored = omega (arith, p.mirrored, q.mirrored, length-append xs ys);
}

-- A tick adds to none of these counters.
reap-Balances :
    (t : Tracker) (now events requests : ℕ) (b : Stats)
    → Balances (reap t now).stats events requests b
    → Balances t.stats events requests b
unfolding reap
reap-Balances t now events requests b h = record {
  received = h.received;
  assembled = h.assembled;
  mirrored = h.mirrored;
}

module _ (json : Json) (net : Network) (base : Bytes) (table : Table) where
  send_all-Feeds :
      (reqs : List CapturedRequest) (s : Stats)
      → ((send_all json net base table s reqs).packets_received ≡ s.packets_received)
        × ((send_all json net base table s reqs).reqs_assembled ≡ s.reqs_assembled)
  unfolding send_all
  send_all-Feeds [] s = (refl, refl)
  send_all-Feeds (r ∷ reqs) s =
      let (a, b) = count-Feeds (outcome_of net base table r) s in
      let (c, d) = send_all-Feeds reqs (send json net base table s r).0 in
      let e = stats-send json net base table s r in
      (
        c ∙ ap (λ (z : Stats). z.packets_received) e ∙ a,
        d ∙ ap (λ (z : Stats). z.reqs_assembled) e ∙ b,
      )

  step-Balances :
      (t u : Tracker) (reqs : List CapturedRequest) {drops errors : ℕ}
      → Counts t.stats 1 drops errors (length reqs) u.stats
      → Balances t.stats 1 (length reqs) (after (send_all json net base table) u reqs).stats
  step-Balances t u reqs c =
      let (a, b) = send_all-Feeds reqs u.stats in
      let (d, _) = send_all_balance json net base table reqs u.stats in
      record {
        received = omega (arith, a, c.received_is);
        assembled = omega (arith, b, c.assembled_is);
        mirrored = omega (arith, d, c.skipped_same, c.sent_same);
      }

  -- Whenever the agent gets through a sequence of events and ticks of the reaper, it has counted each
  -- event as a packet, each request handed on as assembled, and each of these as skipped or as sent to
  -- EWP.
  pub agent-Balances :
      (hs : List Happening) (t : Tracker) {u : Tracker} {sent : Sent}
      → agent json net base table t hs ≡ returned (u, sent)
      → Balances t.stats (length (arrivals_of hs)) (length sent) u.stats
  unfolding agent live
  agent-Balances [] t e =
      let (q, r) = returned-pair e in
      rw (← q, ← r)
        (record { received = omega arith; assembled = omega arith; mirrored = omega arith })
  agent-Balances (ticked now ∷ hs) t e =
      reap-Balances t now _ _ _ (agent-Balances hs (reap t now) e)
  agent-Balances (fed now ev ∷ hs) t e =
      let ((u', reqs), done, e') = bind-eq-returned _ _ e in
      let ((v, later), ran, e'') = bind-eq-returned _ _ e' in
      let (q, r) = returned-pair e'' in
      let first = step-Balances t u' reqs (feed-Counts t now ev done) in
      let then_rest = agent-Balances hs (after (send_all json net base table) u' reqs) ran in
      rw (← q, ← r)
        (Balances-trans t.stats _ v.stats (tag (key_of ev) reqs) later
          (rw (← length-tag (key_of ev) reqs) at first) then_rest)
