-- ===== src/Tests/Mirroring.antt =====
-- Routing, replaying and counting.
use mathlib.Core.List.{Perm}
use mathlib.Core.List.Perm
use mirror_agent.Base.{
  ◌+◌, ◌≤◌, true, false, some, none, List, [], ◌∷◌, ◌++◌, ◌≡◌, ◌↔◌, refl, if◌then◌else◌, Bytes,
  codes, length, All, replicate,
}
use mirror_agent.Go.Strings.{equal}
use mirror_agent.Go.Header.{canonical_key, values, all_token}
use mirror_agent.Go.Header.Laws.{IsHeader}
use mirror_agent.Go.Json.{Json}
use mirror_agent.Stats.{zeroed}
use mirror_agent.Tracker.Request.{CapturedRequest}
use mirror_agent.Tracker.Request.Written.{render}
use mirror_agent.Tracker.Request.Framing.{captured}
use mirror_agent.Routes.{Route, resolve_route}
use mirror_agent.Routes.Matching.{Misses, Resolves, resolve_route_iff, resolve_route-none}
use mirror_agent.Mirror.{Network, do_send, send, out_headers, body_snippet}
use mirror_agent.Mirror.Counting.{got_2xx, count, outcome_of, stats-send}
use mirror_agent.Mirror.Concurrent.{
  Counter, mirrors_sent, mirrors_2xx, run_additions, send_all, all_additions, results,
  all_uncounted, send-interleaved, send_all_balance,
}
use mirror_agent.Mirror.Forwarding.{forwarded, values-out_headers, parse_one_request-IsHeader}
use mirror_agent.Mirror.Snippet.{length-body_snippet}
use mirror_agent.Tests.Data.{post}
use mirror_agent.Tests.Parsing.{alone}

-- A JSON library that knows no JSON, and a network that always answers 204.
abbrev pub no_json : Json
no_json = record { valid = λ b. false; compact = λ b. none; pairs_of = λ s a b. none }

abbrev pub answering : Network
answering = record {
  parses = λ u. true;
  answer = λ r. some (record { status_code = 204; body = codes "done" });
  latency = λ r. 5;
}

abbrev pub routes : List Route
routes =
    (record { apigee = codes "/api/"; ewp = codes "/v2/" })
    ∷ (record { apigee = codes "/a"; ewp = codes "/b" })
    ∷ []

resolve_route_iff_example :
    (resolve_route (some routes) (codes "/api/x") ≡ some (codes "/v2/x"))
    ↔ Resolves (codes "/api/x") (codes "/v2/x") routes
resolve_route_iff_example = resolve_route_iff routes (codes "/api/x") (codes "/v2/x")

resolve_route-none_example :
    (resolve_route (some routes) (codes "/x") ≡ none) ↔ All (Misses (codes "/x")) routes
resolve_route-none_example = resolve_route-none routes (codes "/x")

abbrev pub base : Bytes
base = codes "http://ewp"

stats-send_example :
    (send no_json answering base (some routes) zeroed (captured post)).0
    ≡ count (outcome_of answering base (some routes) (captured post)) zeroed
stats-send_example = stats-send no_json answering base (some routes) zeroed (captured post)

abbrev two_posts : List CapturedRequest
two_posts = captured post ∷ captured post ∷ []

-- Both are counted as sent before either has its result.
abbrev mixed : List Counter
mixed = mirrors_sent ∷ mirrors_sent ∷ mirrors_2xx ∷ mirrors_2xx ∷ []

post-outcome : outcome_of answering base none (captured post) ≡ got_2xx
unfolding resolve_route do_send all_token
post-outcome = refl

mixed-perm : Perm mixed (all_additions no_json answering base none two_posts)
mixed-perm =
    rw post-outcome (Perm.cons mirrors_sent (Perm.swap mirrors_2xx mirrors_sent (mirrors_2xx ∷ [])))

send-interleaved_example :
    run_additions mixed zeroed ≡ send_all no_json answering base none zeroed two_posts
send-interleaved_example =
    send-interleaved no_json answering base none two_posts mixed zeroed mixed-perm

send_all_balance_example :
    ((send_all no_json answering base none zeroed two_posts).mirrors_skipped
        + (send_all no_json answering base none zeroed two_posts).mirrors_sent
      ≡ 0 + 0 + 2)
    × (results (send_all no_json answering base none zeroed two_posts)
          + all_uncounted no_json answering base none two_posts
          + 0
        ≡ 0 + (send_all no_json answering base none zeroed two_posts).mirrors_sent)
send_all_balance_example = send_all_balance no_json answering base none two_posts zeroed

-- What the parser makes of `post` has such a header.
post-IsHeader : IsHeader (captured post).headers
post-IsHeader = parse_one_request-IsHeader (render post ++ []) (captured post) 50 alone

-- A request with a header that is passed on twice, and one that is not.
abbrev demanding : CapturedRequest
demanding = record (captured post) {
  headers =
      (codes "Accept", codes "text/html" ∷ codes "*/*" ∷ []) ∷ (codes "Te", codes "gzip" ∷ []) ∷ [];
}

demanding-IsHeader : IsHeader demanding.headers
unfolding canonical_key values
demanding-IsHeader = (refl, (refl, tt), (refl, tt, tt))

values-out_headers_example : values (out_headers demanding) (codes "Accept") ≡ (
    if equal (codes "X-Original-Client") (codes "Accept")
    then [] ∷ []
    else if equal (codes "X-Mirror-Source") (codes "Accept")
    then codes "ebpf-mirror-agent" ∷ []
    else forwarded (codes "Accept") (values demanding.headers (codes "Accept")))
values-out_headers_example = values-out_headers demanding (codes "Accept") demanding-IsHeader

length-body_snippet_example : length (body_snippet no_json (replicate 300 b'x')) ≤ 259
length-body_snippet_example = length-body_snippet no_json (replicate 300 b'x')
