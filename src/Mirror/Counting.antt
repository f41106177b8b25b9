-- ===== src/Mirror/Counting.antt =====
-- What Send adds to the counters: one of six outcomes, whatever the counters hold.
use mirror_agent.Base.{
  ℕ, ◌+◌, Option, none, some, ◌≡◌, inl, inr, arith, ltb, if◌then◌else◌, Bytes, Option-cases,
}
use mirror_agent.Go.Json.{Json}
use mirror_agent.Stats.{Stats}
use mirror_agent.Tracker.Request.{CapturedRequest}
use mirror_agent.Routes.{Table, resolve_route}
use mirror_agent.Mirror.{Network, Response, MirrorResult, do_send, log_response, log_result, send}

pub data Outcome : Type 0 where
  skipped got_2xx got_4xx got_5xx failed other : Outcome

-- What one request adds: it is skipped or sent, and a sent one has one result, uncounted if its
-- status is below 200 or from 300 to 399.
abbrev pub count : Outcome → Stats → Stats
count skipped s = record s { mirrors_skipped = s.mirrors_skipped + 1 }
count got_2xx s = record s { mirrors_sent = s.mirrors_sent + 1; mirrors_2xx = s.mirrors_2xx + 1 }
count got_4xx s = record s { mirrors_sent = s.mirrors_sent + 1; mirrors_4xx = s.mirrors_4xx + 1 }
count got_5xx s = record s { mirrors_sent = s.mirrors_sent + 1; mirrors_5xx = s.mirrors_5xx + 1 }
count failed s = record s { mirrors_sent = s.mirrors_sent + 1; mirrors_error = s.mirrors_error + 1 }
count other s = record s { mirrors_sent = s.mirrors_sent + 1 }

-- The outcome by the class of the status.
abbrev pub of_status : ℕ → Outcome
of_status c =
    if ltb c 200
    then other
    else if ltb c 300
    then got_2xx
    else if ltb c 400
    then other
    else if ltb c 500
    then got_4xx
    else got_5xx

abbrev pub of_result : Option Response → Outcome
of_result none = failed
of_result (some r) = of_status r.status_code

abbrev pub of_route : Network → Bytes → CapturedRequest → Option Bytes → Outcome
of_route net base r none = skipped
of_route net base r (some path) = of_result (do_send net base r path).outcome

abbrev pub outcome_of : Network → Bytes → Table → CapturedRequest → Outcome
outcome_of net base table r = of_route net base r (resolve_route table r.path)

sent : Stats → Stats
sent s = record s { mirrors_sent = s.mirrors_sent + 1 }

stats-log_response :
    (json : Json) (s : Stats) (req : CapturedRequest) (r : Response)
    → (log_response json (sent s) req r).0 ≡ count (of_status r.status_code) s
unfolding log_response sent
stats-log_response json s req r = ground arith

stats-log_result :
    (json : Json) (s : Stats) (req : CapturedRequest) (result : MirrorResult)
    → (log_result json (sent s) req result).0 ≡ count (of_result result.outcome) s
unfolding log_result sent
stats-log_result json s req result = elim (Option-cases result.outcome) [
  | inl e ↦ rw e
  | inr (r, e) ↦ rw e (stats-log_response json s req r)
]

-- Send counts exactly the request's outcome: skipped if no route fits; else sent, and by the class
-- of the status, as a network error, or (1xx and 3xx) not at all.
pub stats-send :
    (json : Json) (net : Network) (base : Bytes) (table : Table) (s : Stats) (r : CapturedRequest)
    → (send json net base table s r).0 ≡ count (outcome_of net base table r) s
unfolding send sent
stats-send json net base table s r = elim (Option-cases (resolve_route table r.path)) [
  | inl e ↦ rw (e, send)
  | inr (path, e) ↦ rw (e, send) (stats-log_result json s r (do_send net base r path))
]
