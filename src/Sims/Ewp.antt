-- ===== src/Sims/Ewp.antt =====
-- ewp-sim/main.go: the state of the server and the log of mirrored requests. The handlers behind the mux
-- are in Ewp/Handlers, what /validation-report computes is in Ewp/Report.
pub mod Handlers
pub mod Report
pub mod Entries
pub mod Log
pub mod Verdict
pub mod Rate
use mirror_agent.Base.{
  ℕ, ◌+◌, ◌-◌, ◌*◌, ◌/◌, ◌^◌, Bool, true, false, not, ◌&&◌, ◌||◌, Option, none, some, List, [], ◌∷◌,
  ◌++◌, ltb, leb, if◌then◌else◌, Bytes, codes, length, drop,
}
use mirror_agent.Go.Strings.{equal, to_lower, has_prefix}
use mirror_agent.Go.Strconv.{decimal}
use mirror_agent.Go.Header.{Header, get, set, first}
use mirror_agent.Go.Dict.{Dict, store}
use mirror_agent.Sims.Http.{
  Reply, answered, Incoming, Value, text, number, literal, boolean, time, array, object, Values,
  no_more, next, Fields, no_fields, field, Platform, is_mirrored, three_digits,
}

pub record ValidationEntry : Type 0 where
  pub time : ℕ
  pub method : Bytes
  pub path : Bytes
  pub status_code : ℕ
  pub latency_ms : ℕ
  pub passed : Bool
  pub note : Bytes
  pub response_headers : Dict Bytes

-- The counters, the log and the threshold; the type of the threshold is the platform's.
pub record Server (F : Type 0) : Type 0 where
  pub request_count : ℕ
  pub mirrored_count : ℕ
  pub success_count : ℕ
  pub validation_log : List ValidationEntry
  pub ready_thresh_pct : F

abbrev capacity : ℕ
capacity = 1000

-- The log cut to its last 1000 entries.
unfoldable pub keep_last : List ValidationEntry → List ValidationEntry
keep_last log = if ltb capacity (length log) then drop (length log - capacity) log else log

-- " — " in UTF-8.
abbrev dash : Bytes
dash = 32 ∷ 0xe2 ∷ 0x80 ∷ 0x94 ∷ 32 ∷ []

unfoldable pub note_of : ℕ → Bytes
unfolding decimal
note_of status =
    if leb 500 status
    then codes "EWP internal error "
      ++ (decimal status ++ (dash ++ codes "EWP may not handle this endpoint yet"))
    else if leb 400 status
    then codes "EWP returned "
      ++ (decimal status ++ (dash ++ codes "possible route or schema mismatch vs APIGEE"))
    else []

-- The first value under each name, in lower case.
unfoldable pub snapshot : Header → Dict Bytes → Dict Bytes
unfolding to_lower store
snapshot [] d = d
snapshot ((k, []) ∷ h) d = snapshot h d
snapshot ((k, v ∷ vs) ∷ h) d = snapshot h (store d (to_lower k) v)

abbrev pub is_success : ℕ → Bool
is_success status = leb 200 status && ltb status 300

unfoldable pub entry_of : Incoming → ℕ → Header → ValidationEntry
unfolding note_of snapshot
entry_of r status header = record {
  time = r.now;
  method = r.method;
  path = r.path;
  status_code = status;
  latency_ms = r.latency / 10 ^ 6;
  passed = is_success status;
  note = note_of status;
  response_headers = snapshot header [];
}

-- The headers that writeJSON sets.
unfoldable pub json_headers : Header
unfolding set
json_headers =
    set (set [] (codes "Content-Type") (codes "application/json")) (codes "X-Served-By")
      (codes "ewp-sim")

module _ (p : Platform) where
  abbrev pub Ewp : Type 0
  Ewp = Server p.Float

  -- The server's globals as it starts.
  abbrev pub started : Ewp
  started = record {
    request_count = 0;
    mirrored_count = 0;
    success_count = 0;
    validation_log = [];
    ready_thresh_pct = p.of_int 100;
  }

  unfoldable pub count_request : Ewp → Ewp
  count_request s = record s { request_count = s.request_count + 1 }

  unfoldable pub count_mirrored : Ewp → Incoming → Ewp
  count_mirrored s r =
      if is_mirrored r then record s { mirrored_count = s.mirrored_count + 1 } else s

  unfoldable pub log_entry : Ewp → ValidationEntry → Ewp
  log_entry s e = record s { validation_log = keep_last (s.validation_log ++ (e ∷ [])) }

  unfoldable pub count_success : Ewp → Incoming → ℕ → Ewp
  count_success s r status =
      if is_success status && is_mirrored r
      then record s { success_count = s.success_count + 1 }
      else s

  -- record
  unfoldable pub record_outcome : Ewp → Incoming → ℕ → Header → Ewp
  record_outcome s r status header =
      let s' = count_success s r status in
      if is_mirrored r then log_entry s' (entry_of r status header) else s'

  -- writeJSON, and then record.
  unfoldable pub answer : Ewp → Incoming → ℕ → Value → Ewp × Reply
  answer s r status v = (record_outcome s r status json_headers, answered status v)
