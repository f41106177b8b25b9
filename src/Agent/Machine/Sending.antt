-- ===== src/Agent/Machine/Sending.antt =====
-- The additions that the Sends have still to make.
use mirror_agent.Base.{ℕ, ◌+◌, ◌≤◌, List, [], ◌∷◌, ◌++◌, ◌≡◌, refl, arith, length, Bytes, All}
use mirror_agent.Stats.{Stats}
use mirror_agent.Routes.{Table}
use mirror_agent.Mirror.{Network}
use mirror_agent.Mirror.Counting.{
  Outcome, skipped, got_2xx, got_4xx, got_5xx, failed, other, outcome_of,
}
use mirror_agent.Mirror.Concurrent.{
  Counter, mirrors_skipped, mirrors_sent, mirrors_2xx, mirrors_4xx, mirrors_5xx, mirrors_error,
  add_one, additions, results,
}
use mirror_agent.Tracker.Request.{CapturedRequest}
use mirror_agent.Agent.Machine.{spawn}

-- The first addition of a Send, and the one of its result.
abbrev pub is_first : Counter → ℕ
is_first mirrors_skipped = 1
is_first mirrors_sent = 1
is_first _ = 0

abbrev pub is_sent : Counter → ℕ
is_sent mirrors_sent = 1
is_sent _ = 0

abbrev pub is_result : Counter → ℕ
is_result mirrors_skipped = 0
is_result mirrors_sent = 0
is_result _ = 1

-- How many Sends have not begun, and how many have counted the sending but not yet the result.
abbrev pub begins : List Counter → ℕ
begins [] = 0
begins (c ∷ cs) = is_first c

abbrev pub owes : List Counter → ℕ
owes (c ∷ []) = is_result c
owes _ = 0

abbrev pub unbegun : List (List Counter) → ℕ
unbegun [] = 0
unbegun (cs ∷ css) = begins cs + unbegun css

abbrev pub unanswered : List (List Counter) → ℕ
unanswered [] = 0
unanswered (cs ∷ css) = owes cs + unanswered css

-- What can be left of a Send: one addition, or the sending and its result.
abbrev pub IsRest : List Counter → Type 0
IsRest [] = Unit
IsRest (c ∷ []) = Unit
IsRest (c ∷ d ∷ []) = (is_sent c ≡ 1) × (is_result d ≡ 1)
IsRest (c ∷ d ∷ e ∷ cs) = ⊥

abbrev pub mirrored : Stats → ℕ
mirrored s = s.mirrors_skipped + s.mirrors_sent

pub unbegun-append : (xs ys : List (List Counter)) → unbegun (xs ++ ys) ≡ unbegun xs + unbegun ys
unbegun-append [] ys = omega arith
unbegun-append (x ∷ xs) ys = omega (arith, unbegun-append xs ys)

pub unanswered-append :
    (xs ys : List (List Counter)) → unanswered (xs ++ ys) ≡ unanswered xs + unanswered ys
unanswered-append [] ys = omega arith
unanswered-append (x ∷ xs) ys = omega (arith, unanswered-append xs ys)

record IsFresh (cs : List Counter) : Type 0 where
  begins_one : begins cs ≡ 1
  owes_none : owes cs ≡ 0
  rest : IsRest cs

additions-IsFresh : (o : Outcome) → IsFresh (additions o)
additions-IsFresh skipped = record { begins_one = refl; owes_none = refl; rest = tt }
additions-IsFresh got_2xx = record { begins_one = refl; owes_none = refl; rest = (refl, refl) }
additions-IsFresh got_4xx = record { begins_one = refl; owes_none = refl; rest = (refl, refl) }
additions-IsFresh got_5xx = record { begins_one = refl; owes_none = refl; rest = (refl, refl) }
additions-IsFresh failed = record { begins_one = refl; owes_none = refl; rest = (refl, refl) }
additions-IsFresh other = record { begins_one = refl; owes_none = refl; rest = tt }

-- What one addition does to the counters.
pub add_one-counts :
    (c : Counter) (s : Stats)
    → (mirrored (add_one c s) ≡ mirrored s + is_first c)
      × (results (add_one c s) ≡ results s + is_result c)
      × ((add_one c s).mirrors_sent ≡ s.mirrors_sent + is_sent c)
      × ((add_one c s).reqs_assembled ≡ s.reqs_assembled)
add_one-counts mirrors_skipped s = omega arith
add_one-counts mirrors_sent s = omega arith
add_one-counts mirrors_2xx s = omega arith
add_one-counts mirrors_4xx s = omega arith
add_one-counts mirrors_5xx s = omega arith
add_one-counts mirrors_error s = omega arith

sent-result : (c : Counter) → is_sent c ≡ 1 → is_result c ≡ 0
sent-result mirrors_sent h = refl
sent-result mirrors_skipped h = omega arith
sent-result mirrors_2xx h = omega arith
sent-result mirrors_4xx h = omega arith
sent-result mirrors_5xx h = omega arith
sent-result mirrors_error h = omega arith

result-first : (c : Counter) → is_result c ≡ 1 → is_first c ≡ 0
result-first mirrors_sent h = omega arith
result-first mirrors_skipped h = omega arith
result-first mirrors_2xx h = refl
result-first mirrors_4xx h = refl
result-first mirrors_5xx h = refl
result-first mirrors_error h = refl

-- What an addition leaves of its Send.
pub IsRest-step :
    (c : Counter) (cs : List Counter)
    → IsRest (c ∷ cs)
    → (begins cs ≡ 0) × (is_result c + owes cs ≤ owes (c ∷ cs) + is_sent c) × IsRest cs
IsRest-step c [] h = (refl, omega arith, tt)
IsRest-step c (d ∷ []) h = (result-first d h.1, omega (arith, h, sent-result c h.0), tt)
IsRest-step c (d ∷ e ∷ cs) h = elim h [ ]

pub All-parts {ℓ κ} :
    {A : Type ℓ} (P : A → Type κ) (xs ys : List A) → All P (xs ++ ys) → All P xs × All P ys
All-parts P [] ys h = (tt, h)
All-parts P (x ∷ xs) ys h = let (a, b) = All-parts P xs ys h.1 in ((h.0, a), b)

module _ (net : Network) (base : Bytes) (table : Table) where
  pub spawn_fresh :
      (reqs : List CapturedRequest)
      → (unbegun (spawn net base table reqs) ≡ length reqs)
        × (unanswered (spawn net base table reqs) ≡ 0)
        × All IsRest (spawn net base table reqs)
  unfolding spawn
  spawn_fresh [] = (refl, refl, tt)
  spawn_fresh (r ∷ rs) =
      let f = additions-IsFresh (outcome_of net base table r) in
      let (a, b, c) = spawn_fresh rs in
      (omega (arith, f.begins_one), omega (arith, f.owes_none), (f.rest, c))
