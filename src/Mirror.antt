-- ===== src/Mirror.antt =====
-- mirror-agent/mirror.go: the replay of a captured request to EWP, and what is counted and logged.
pub mod Counting
pub mod Concurrent
pub mod Forwarding
pub mod Snippet
use mirror_agent.Base.{
  ℕ, ◌+◌, ◌*◌, Bool, true, false, not, ◌&&◌, Option, none, some, List, [], ◌∷◌, ◌++◌, ltb, leb,
  if◌then◌else◌, Bytes, codes, length, take,
}
use mirror_agent.Go.Strings.{equal, to_lower, trim_right}
use mirror_agent.Go.Header.{Header, add, set, all_token}
use mirror_agent.Go.Json.{Json}
use mirror_agent.Stats.{Stats}
use mirror_agent.Tracker.Request.{CapturedRequest}
use mirror_agent.Routes.{Table, resolve_route}

-- The request that goes to EWP.
pub record OutRequest : Type 0 where
  pub method : Bytes
  pub url : Bytes
  pub headers : Header
  pub body : Bytes

pub record Response : Type 0 where
  pub status_code : ℕ
  pub body : Bytes

-- The network: what url.Parse accepts, and what http.Client.Do comes back with, `none` for an
-- error, and after how long (in nanoseconds).
pub record Network : Type 0 where
  pub parses : Bytes → Bool
  pub answer : OutRequest → Option Response
  pub latency : OutRequest → ℕ

-- MirrorResult; `outcome` is `none` where Error is set, and has StatusCode and Body otherwise.
pub record MirrorResult : Type 0 where
  pub method : Bytes
  pub path : Bytes
  pub outcome : Option Response
  pub latency : ℕ

-- NewHTTPMirror
unfoldable pub ewp_base : Bytes → Bytes
ewp_base address = trim_right address b'/'

abbrev pub hop_by_hop_names : List Bytes
hop_by_hop_names =
    codes "connection"
    ∷ codes "keep-alive"
    ∷ codes "proxy-authenticate"
    ∷ codes "proxy-authorization"
    ∷ codes "te"
    ∷ codes "trailers"
    ∷ codes "transfer-encoding"
    ∷ codes "upgrade"
    ∷ []

unfoldable pub among : Bytes → List Bytes → Bool
among s [] = false
among s (n ∷ ns) = if equal s n then true else among s ns

unfoldable pub is_hop_by_hop : Bytes → Bool
unfolding among
is_hop_by_hop name = among (to_lower name) hop_by_hop_names

unfoldable pub add_all : Header → Bytes → List Bytes → Header
add_all h k [] = h
add_all h k (v ∷ vs) = add_all (add h k v) k vs

unfoldable pub copy_headers : Header → Header → Header
unfolding is_hop_by_hop add_all
copy_headers out [] = out
copy_headers out ((k, vs) ∷ h) = copy_headers (if is_hop_by_hop k then out else add_all out k vs) h

-- The headers of the mirrored request.
unfoldable pub out_headers : CapturedRequest → Header
unfolding copy_headers
out_headers r =
    set (set (copy_headers [] r.headers) (codes "X-Mirror-Source") (codes "ebpf-mirror-agent"))
      (codes "X-Original-Client") r.src_ip

-- An empty method means GET to http.NewRequest.
abbrev pub or_get : Bytes → Bytes
or_get [] = codes "GET"
or_get (c ∷ s) = c ∷ s

abbrev pub body_limit : ℕ
body_limit = 64 * 1024

-- The answer, with the body cut for logging.
abbrev pub cut_body : Option Response → Option Response
cut_body none = none
cut_body (some r) = some (record r { body = take body_limit r.body })

unfoldable pub do_send : Network → Bytes → CapturedRequest → Bytes → MirrorResult
unfolding out_headers
do_send net base r ewp_path =
    let url = base ++ ewp_path in
    let out : OutRequest = record {
      method = or_get r.method;
      url = url;
      headers = out_headers r;
      body = r.body;
    } in
    if all_token (or_get r.method) && net.parses url
    then record {
      method = r.method;
      path = ewp_path;
      outcome = cut_body (net.answer out);
      latency = net.latency out;
    }
    else record { method = r.method; path = ewp_path; outcome = none; latency = 0 }

-- "…" in UTF-8.
abbrev pub ellipsis : Bytes
ellipsis = 0xe2 ∷ 0x80 ∷ 0xa6 ∷ []

abbrev pub compacted : Json → Bytes → Bytes
compacted json b = if json.valid b then elim (json.compact b) [ none ↦ b | some s ↦ s ] else b

abbrev pub cut_snippet : Bytes → Bytes
cut_snippet s = if ltb 256 (length s) then take 256 s ++ ellipsis else s

unfoldable pub body_snippet : Json → Bytes → Bytes
body_snippet json [] = codes "(empty)"
body_snippet json (c ∷ b) = cut_snippet (compacted json (c ∷ b))

-- The line that logResult writes: its kind, with what it shows of the bodies.
pub data LogLine : Type 0 where
  net_error : Bytes → LogLine
  ok : ℕ → Bytes → LogLine
  warn_4xx : ℕ → Bytes → Bytes → LogLine
  error_5xx : ℕ → Bytes → Bytes → LogLine
  unexpected : ℕ → LogLine

log_response : Json → Stats → CapturedRequest → Response → Stats × LogLine
log_response json s req r =
    if leb 200 r.status_code && ltb r.status_code 300
    then (record s { mirrors_2xx = s.mirrors_2xx + 1 }, ok r.status_code (body_snippet json r.body))
    else if leb 400 r.status_code && ltb r.status_code 500
    then (
      record s { mirrors_4xx = s.mirrors_4xx + 1 },
      warn_4xx r.status_code (body_snippet json req.body) (body_snippet json r.body),
    )
    else if leb 500 r.status_code
    then (
      record s { mirrors_5xx = s.mirrors_5xx + 1 },
      error_5xx r.status_code (body_snippet json req.body) (body_snippet json r.body),
    )
    else (s, unexpected r.status_code)

log_outcome : Json → Stats → CapturedRequest → Option Response → Stats × LogLine
log_outcome json s req none =
    (record s { mirrors_error = s.mirrors_error + 1 }, net_error (body_snippet json req.body))
log_outcome json s req (some r) = log_response json s req r

unfoldable pub log_result : Json → Stats → CapturedRequest → MirrorResult → Stats × LogLine
unfolding log_response log_outcome
log_result json s req result = log_outcome json s req result.outcome

-- Send: counters, and the line logged if the request is forwarded.
unfoldable pub send :
    Json → Network → Bytes → Table → Stats → CapturedRequest → Stats × Option LogLine
unfolding do_send log_result
send json net base table s r = elim (resolve_route table r.path) [
  | none ↦ (record s { mirrors_skipped = s.mirrors_skipped + 1 }, none)
  | some ewp_path ↦
      let sent = record s { mirrors_sent = s.mirrors_sent + 1 } in
      let (s', line) = log_result json sent r (do_send net base r ewp_path) in (s', some line)
]
