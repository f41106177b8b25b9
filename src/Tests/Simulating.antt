-- ===== src/Tests/Simulating.antt =====
-- The simulators on a small platform.
use mirror_agent.Base.{
  replicate, ◌≤◌, arith, ℕ, ◌+◌, ◌*◌, ◌≡◌, Bool, true, false, Option, none, some, List, [], ◌∷◌,
  refl, ltb, leb, if◌then◌else◌, Bytes, codes, length,
}
use mirror_agent.Go.Strings.{equal, has_prefix}
use mirror_agent.Go.Strconv.{decimal, unsigned}
use mirror_agent.Go.Dict.{lookup}
use mirror_agent.Sims.Http.{Incoming, Fields, no_fields, Platform, is_mirrored}
use mirror_agent.Sims.Ewp.{ValidationEntry, Ewp, started}
use mirror_agent.Sims.Payload.{users_prefix}
use mirror_agent.Sims.Ewp.Handlers.{serve_all}
use mirror_agent.Sims.Ewp.Entries.{entries, status_of}
use mirror_agent.Go.Header.{get, values, canonical_key, all_token, is_token_byte, recase}
use mirror_agent.Sims.Ewp.Log.{serve_all-success_count}
use mirror_agent.Sims.Ewp.Rate.{all_mirrored, serve_all-success_mirrored}
use mirror_agent.Sims.Ewp.Report.{report}
use mirror_agent.Sims.Ewp.Report.Laws.{of_path, Reported, report-Reported}
use mirror_agent.Sims.Ewp.Verdict.{report-serve_all}

abbrev pub among : Bytes → List Bytes → Bool
among s [] = false
among s (n ∷ ns) = if equal s n then true else among s ns

-- A pattern without a slash at its end fits its own path; else the users' subtree, and then "/".
abbrev pub pick : List Bytes → Bytes → Option Bytes
pick patterns path =
    if among path patterns
    then some path
    else if has_prefix path users_prefix
    then some users_prefix
    else some (codes "/")

abbrev pub decoded : Bytes → Option Fields
decoded [] = none
decoded (c ∷ b) = some no_fields

-- Whole numbers in place of floats, with a division that tells only whether it is whole.
abbrev pub small : Platform
small = record {
  Float = ℕ;
  of_int = λ n. n;
  div = λ a b. if leb b a then 1 else 0;
  mul = λ a b. a * b;
  le = leb;
  percent = decimal;
  shown = decimal;
  decode_object = decoded;
  decode_threshold = unsigned;
  pattern_for = pick;
}

abbrev pub mirrored : Bytes → Bytes → Incoming
mirrored method path = record {
  method = method;
  path = path;
  query = [];
  headers = (codes "X-Mirror-Source", codes "ebpf-mirror-agent" ∷ []) ∷ [];
  body = [];
  now = 7;
  latency = 3000000;
}

-- An answer, a panic, a refusal, an unknown path.
abbrev four_requests : List Incoming
four_requests =
    mirrored (codes "GET") (codes "/api/v1/products")
    ∷ mirrored (codes "POST") (codes "/api/v1/orders")
    ∷ mirrored (codes "DELETE") (codes "/api/v1/products")
    ∷ mirrored (codes "GET") (codes "/v2/x")
    ∷ []

serve_all-success_count_example :
    (serve_all small (started small) four_requests).success_count
    ≡ 0 + length (entries small four_requests)
serve_all-success_count_example = serve_all-success_count small four_requests (started small)

serve_all-success_mirrored_example :
    ((serve_all small (started small) four_requests).success_count
      ≤ (serve_all small (started small) four_requests).mirrored_count)
    × ((serve_all small (started small) four_requests).mirrored_count
        ≤ 0 + all_mirrored four_requests)
serve_all-success_mirrored_example =
    serve_all-success_mirrored small four_requests (started small) (omega arith)

abbrev logged : Bool → ValidationEntry
logged passed = record {
  time = 7;
  method = codes "GET";
  path = codes "/x";
  status_code = 200;
  latency_ms = 3;
  passed = passed;
  note = [];
  response_headers = [];
}

-- A server whose log is full.
abbrev full_log : List ValidationEntry
full_log = replicate 1000 (logged true)

abbrev loaded : Ewp small
loaded = record {
  request_count = 2;
  mirrored_count = 2;
  success_count = 1;
  validation_log = logged true ∷ logged false ∷ [];
  ready_thresh_pct = 50;
}

report-Reported_example :
    Reported small 50
      (of_path (codes "GET /x") loaded.validation_log)
      (lookup (report small loaded).by_path (codes "GET /x"))
report-Reported_example = report-Reported small loaded (codes "GET /x")

report-serve_all_example :
    ((report small (serve_all small (started small) four_requests)).failed ≡ 0)
    × ((report small (serve_all small (started small) four_requests)).ready_to_cut
        ≡ ltb 0 (length (entries small four_requests)))
report-serve_all_example = report-serve_all small (λ n. ground arith) refl four_requests

entries_made : length (entries small four_requests) ≡ 2
unfolding entries status_of is_mirrored get values canonical_key all_token is_token_byte recase
    equal has_prefix
entries_made = refl
