-- ===== src/Mirror/Concurrent.antt =====
-- Every request is sent by a goroutine of its own, and each counter is added to atomically. A run is
-- the sequence of those additions in the order in which they happened.
use mathlib.Core.List.{Perm, Permᴰ}
use mathlib.Core.Logic.{∥∥₁_elim}
use mathlib.Core.Path.{ap₂}
use mirror_agent.Base.{ℕ, ◌+◌, List, [], ◌∷◌, ◌++◌, ◌≡◌, refl, sym, ap, ◌∙◌, arith, Bytes, length}
use mirror_agent.Go.Json.{Json}
use mirror_agent.Stats.{Stats}
use mirror_agent.Tracker.Request.{CapturedRequest}
use mirror_agent.Routes.{Table}
use mirror_agent.Mirror.{Network, send}
use mirror_agent.Mirror.Counting.{
  Outcome, skipped, got_2xx, got_4xx, got_5xx, failed, other, count, outcome_of, stats-send,
}

pub data Counter : Type 0 where
  mirrors_skipped mirrors_sent mirrors_2xx mirrors_4xx mirrors_5xx mirrors_error : Counter

-- counter.Add(1)
abbrev pub add_one : Counter → Stats → Stats
add_one mirrors_skipped s = record s { mirrors_skipped = s.mirrors_skipped + 1 }
add_one mirrors_sent s = record s { mirrors_sent = s.mirrors_sent + 1 }
add_one mirrors_2xx s = record s { mirrors_2xx = s.mirrors_2xx + 1 }
add_one mirrors_4xx s = record s { mirrors_4xx = s.mirrors_4xx + 1 }
add_one mirrors_5xx s = record s { mirrors_5xx = s.mirrors_5xx + 1 }
add_one mirrors_error s = record s { mirrors_error = s.mirrors_error + 1 }

unfoldable pub run_additions : List Counter → Stats → Stats
run_additions [] s = s
run_additions (c ∷ cs) s = run_additions cs (add_one c s)

-- The additions of one Send, in its order.
abbrev pub additions : Outcome → List Counter
additions skipped = mirrors_skipped ∷ []
additions got_2xx = mirrors_sent ∷ mirrors_2xx ∷ []
additions got_4xx = mirrors_sent ∷ mirrors_4xx ∷ []
additions got_5xx = mirrors_sent ∷ mirrors_5xx ∷ []
additions failed = mirrors_sent ∷ mirrors_error ∷ []
additions other = mirrors_sent ∷ []

Stats-set : IsSet Stats
Stats-set = hlevel

add_one_comm : (c d : Counter) (s : Stats) → add_one c (add_one d s) ≡ add_one d (add_one c s)
add_one_comm mirrors_skipped d s = ground arith
add_one_comm mirrors_sent d s = ground arith
add_one_comm mirrors_2xx d s = ground arith
add_one_comm mirrors_4xx d s = ground arith
add_one_comm mirrors_5xx d s = ground arith
add_one_comm mirrors_error d s = ground arith

run_additions-Permᴰ :
    {cs ds : List Counter} (s : Stats) → Permᴰ cs ds → run_additions cs s ≡ run_additions ds s
unfolding run_additions
run_additions-Permᴰ s Permᴰ.nil = refl
run_additions-Permᴰ s (Permᴰ.cons {b} {l₁ = l} e p) =
    ap (λ c. run_additions l (add_one c s)) e ∙ run_additions-Permᴰ (add_one b s) p
run_additions-Permᴰ s (Permᴰ.swap {a} {b} {l} e f) =
    ap (run_additions l) (add_one_comm b a s ∙ ap₂ (λ x y. add_one x (add_one y s)) e f)
run_additions-Permᴰ s (Permᴰ.trans p q) = run_additions-Permᴰ s p ∙ run_additions-Permᴰ s q

pub run_additions-perm :
    {cs ds : List Counter} (s : Stats) → Perm cs ds → run_additions cs s ≡ run_additions ds s
run_additions-perm s p = ∥∥₁_elim p (Stats-set _ _) (run_additions-Permᴰ s)

-- The counted results.
abbrev pub results : Stats → ℕ
results s = s.mirrors_2xx + s.mirrors_4xx + s.mirrors_5xx + s.mirrors_error

abbrev pub uncounted : Outcome → ℕ
uncounted other = 1
uncounted _ = 0

count_balance :
    (o : Outcome) (s : Stats)
    → ((count o s).mirrors_skipped + (count o s).mirrors_sent
        ≡ s.mirrors_skipped + s.mirrors_sent + 1)
      × (results (count o s) + uncounted o + s.mirrors_sent ≡ results s + (count o s).mirrors_sent)
count_balance skipped s = omega arith
count_balance got_2xx s = omega arith
count_balance got_4xx s = omega arith
count_balance got_5xx s = omega arith
count_balance failed s = omega arith
count_balance other s = omega arith

module _ (json : Json) (net : Network) (base : Bytes) (table : Table) where
  -- The requests sent one after the other.
  unfoldable pub send_all : Stats → List CapturedRequest → Stats
  send_all s [] = s
  send_all s (r ∷ rs) = send_all (send json net base table s r).0 rs

  abbrev pub all_additions : List CapturedRequest → List Counter
  all_additions [] = []
  all_additions (r ∷ rs) = additions (outcome_of net base table r) ++ all_additions rs

  run-append :
      (o : Outcome) (cs : List Counter) (s : Stats)
      → run_additions (additions o ++ cs) s ≡ run_additions cs (count o s)
  unfolding run_additions
  run-append skipped cs s = refl
  run-append got_2xx cs s = refl
  run-append got_4xx cs s = refl
  run-append got_5xx cs s = refl
  run-append failed cs s = refl
  run-append other cs s = refl

  in_sequence :
      (rs : List CapturedRequest) (s : Stats) → run_additions (all_additions rs) s ≡ send_all s rs
  unfolding send_all
  in_sequence [] s = unfold run_additions in refl
  in_sequence (r ∷ rs) s =
      run-append (outcome_of net base table r) (all_additions rs) s
      ∙ in_sequence rs (count (outcome_of net base table r) s)
      ∙ ap (λ x. send_all x rs) (sym (stats-send json net base table s r))

  -- However the goroutines of the requests interleave their additions, the counters end as if the
  -- requests had been sent one after the other.
  pub send-interleaved :
      (rs : List CapturedRequest) (run : List Counter) (s : Stats)
      → Perm run (all_additions rs)
      → run_additions run s ≡ send_all s rs
  send-interleaved rs run s p = run_additions-perm s p ∙ in_sequence rs s

  abbrev pub all_uncounted : List CapturedRequest → ℕ
  all_uncounted [] = 0
  all_uncounted (r ∷ rs) = uncounted (outcome_of net base table r) + all_uncounted rs

  -- Every request is counted as skipped or as sent, and every sent one has a result: 2xx, 4xx, 5xx,
  -- a network error, or one of the statuses that no counter has.
  pub send_all_balance :
      (rs : List CapturedRequest) (s : Stats)
      → ((send_all s rs).mirrors_skipped + (send_all s rs).mirrors_sent
          ≡ s.mirrors_skipped + s.mirrors_sent + length rs)
        × (results (send_all s rs) + all_uncounted rs + s.mirrors_sent
            ≡ results s + (send_all s rs).mirrors_sent)
  unfolding send_all
  send_all_balance [] s = omega arith
  send_all_balance (r ∷ rs) s =
      let o = outcome_of net base table r in
      let (a, b) = count_balance o s in
      let (c, d) = send_all_balance rs (count o s) in
      rw (stats-send json net base table s r, send_all) (omega arith, omega arith)
