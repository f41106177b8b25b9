-- ===== src/Tracker/Batch/Pipeline.antt =====
-- Written requests one behind the other.
use mirror_agent.Base.{
  List, [], ◌∷◌, ◌++◌, map, ◌≡◌, sym, ap, ◌∙◌, Bytes, length, All, length-append,
  drop-length-append, append_assoc,
}
use mirror_agent.Go.Panic.{returned}
use mirror_agent.Tracker.Request.{incomplete, parse_one_request}
use mirror_agent.Tracker.Request.Written.{Written, IsWritten, render}
use mirror_agent.Tracker.Request.Framing.{captured, parse_one_request-render}
use mirror_agent.Tracker.Batch.{starved, prepend, round, parse_http_requests}
use mirror_agent.Tracker.Batch.Loop.{by_case}

abbrev pub render_all : List Written → Bytes
render_all [] = []
render_all (w ∷ ws) = render w ++ render_all ws

-- Written requests, and behind them bytes that are no complete request yet: the loop finds all the
-- requests, in order, consumes their bytes, and waits for more.
pub parse_http_requests-render_all :
    (ws : List Written) (rest : Bytes)
    → All IsWritten ws
    → parse_one_request rest ≡ returned incomplete
    → parse_http_requests (render_all ws ++ rest)
      ≡ record { requests = map captured ws; consumed = length (render_all ws); stop = starved }
unfolding round
parse_http_requests-render_all [] rest v e = by_case rest _ e
parse_http_requests-render_all (w ∷ ws) rest v e =
    let n = length (render w) in
    let more = render_all ws ++ rest in
    ap parse_http_requests (append_assoc (render w) (render_all ws) rest)
    ∙ by_case (render w ++ more) _ (parse_one_request-render w v.0 more)
    ∙ ap (λ z. prepend (captured w) n (parse_http_requests z)) (drop-length-append (render w) more)
    ∙ ap (prepend (captured w) n) (parse_http_requests-render_all ws rest v.1 e)
    ∙ ap (λ z. record { requests = captured w ∷ map captured ws; consumed = z; stop = starved })
        (sym (length-append (render w) (render_all ws)))
