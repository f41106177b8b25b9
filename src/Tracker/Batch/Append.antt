-- ===== src/Tracker/Batch/Append.antt =====
-- The loop over a buffer that grows: what arrives later adds to the answer and changes none of it.
use mirror_agent.Base.{
  ℕ, ◌+◌, ◌++◌, ◌≡◌, refl, sym, ap, ◌∙◌, arith, Bytes, drop, drop-append, drop-drop,
}
use mirror_agent.Go.Panic.{Run, returned, panicked}
use mirror_agent.Tracker.Request.{
  CapturedRequest, Parsed, incomplete, empty, malformed, complete, parse_one_request,
}
use mirror_agent.Tracker.Request.Stable.{parse_one_request-append}
use mirror_agent.Tracker.Request.Complete.{complete_bounds}
use mirror_agent.Tracker.Batch.Loop.{Batch-induction, by_case}
use mirror_agent.Tracker.Batch.{
  Stop, starved, failed, crashed, Batch, stopped, prepend, round, parse_http_requests,
}

-- The requests of one batch, then those of the next.
abbrev pub after : Batch → Batch → Batch
after b c = record {
  requests = b.requests ++ c.requests;
  consumed = b.consumed + c.consumed;
  stop = c.stop;
}

after-stopped : (why : Stop) (c : Batch) → after (stopped why) c ≡ c
after-stopped why c = ground arith

after-prepend :
    (r : CapturedRequest) (n : ℕ) (b c : Batch) → prepend r n (after b c) ≡ after (prepend r n b) c
after-prepend r n b c = ground arith

-- What the loop leaves in the buffer.
abbrev pub leftover : Bytes → Bytes
leftover buf = drop (parse_http_requests buf).consumed buf

abbrev Appends : Bytes → Bytes → Type 0
Appends t buf =
    parse_http_requests (buf ++ t)
    ≡ after (parse_http_requests buf) (parse_http_requests (leftover buf ++ t))

Appends-stopped :
    (t buf : Bytes) (why : Stop) → parse_http_requests buf ≡ stopped why → Appends t buf
Appends-stopped t buf why e = rw e (sym (after-stopped why _))

Appends-round :
    (t buf : Bytes) (o : Run Parsed)
    → parse_one_request buf ≡ o
    → ((r : CapturedRequest) (n : ℕ) → o ≡ returned (complete r n) → Appends t (drop n buf))
    → Appends t buf
unfolding round
Appends-round t buf panicked e ih = Appends-stopped t buf crashed (by_case buf _ e)
Appends-round t buf (returned incomplete) e ih = Appends-stopped t buf starved (by_case buf _ e)
Appends-round t buf (returned empty) e ih = Appends-stopped t buf failed (by_case buf _ e)
Appends-round t buf (returned (malformed l)) e ih = Appends-stopped t buf failed (by_case buf _ e)
Appends-round t buf (returned (complete r n)) e ih =
    let more : parse_one_request (buf ++ t) ≡ returned (complete r n) =
      parse_one_request-append buf t (λ q. cc) ∙ e in
    let (_, within) = complete_bounds buf r n e in
    let b = parse_http_requests (drop n buf) in
    rw (by_case buf _ e) (
      by_case (buf ++ t) _ more
      ∙ ap (λ x. prepend r n (parse_http_requests x)) (drop-append n buf t within)
      ∙ ap (prepend r n) (ih r n refl)
      ∙ after-prepend r n b _
      ∙ ap (λ x. after (prepend r n b) (parse_http_requests (x ++ t))) (drop-drop n b.consumed buf))

-- Parsing a buffer with more bytes behind it is parsing the buffer, and then what it left over with
-- those bytes behind.
pub parse_http_requests-append :
    (buf t : Bytes)
    → parse_http_requests (buf ++ t)
      ≡ after (parse_http_requests buf) (parse_http_requests (leftover buf ++ t))
parse_http_requests-append buf t = Batch-induction (Appends t) (Appends-round t) buf
