-- ===== src/Tracker/Batch/Ends.antt =====
-- How the loop ends: within the buffer, and with nothing left that it could still read.
use mirror_agent.Base.{
  ℕ, ◌≤◌, [], ◌++◌, ◌≡◌, ◌≢◌, refl, sym, ap, ◌∙◌, arith, Bytes, length, drop, length-drop,
  drop-append, drop-drop,
}
use mirror_agent.Go.Panic.{Run, returned, panicked}
use mirror_agent.Tracker.Request.{
  CapturedRequest, Parsed, incomplete, empty, malformed, complete, parse_one_request,
}
use mirror_agent.Tracker.Request.Stable.{parse_one_request-append}
use mirror_agent.Tracker.Request.Complete.{complete_bounds}
use mirror_agent.Tracker.Batch.Loop.{Batch-induction, by_case}
use mirror_agent.Tracker.Batch.Append.{leftover, parse_http_requests-append}
use mirror_agent.Tracker.Batch.{
  Stop, starved, failed, crashed, exhausted, Batch, stopped, prepend, round, parse_http_requests,
}

-- The loop ended for a reason of the program's, consumed no more than there is, and stops at once
-- on what it left.
pub record IsDone (buf : Bytes) (b : Batch) : Type 0 where
  pub ended : b.stop ≢ exhausted
  pub within : b.consumed ≤ length buf
  pub nothing_left : parse_http_requests (drop b.consumed buf) ≡ stopped b.stop

abbrev Done : Bytes → Type 0
Done buf = IsDone buf (parse_http_requests buf)

IsDone-stopped :
    (buf : Bytes) (why : Stop) → why ≢ exhausted → parse_http_requests buf ≡ stopped why → Done buf
IsDone-stopped buf why ne e = rw e (record { ended = ne; within = omega arith; nothing_left = e })

IsDone-prepend :
    (buf : Bytes) (r : CapturedRequest) (n : ℕ) (b : Batch)
    → n ≤ length buf
    → IsDone (drop n buf) b
    → IsDone buf (prepend r n b)
IsDone-prepend buf r n b h d = record {
  ended = d.ended;
  within = omega (arith, d.within, length-drop n buf);
  nothing_left = rw (← drop-drop n b.consumed buf) d.nothing_left;
}

IsDone-round :
    (buf : Bytes) (o : Run Parsed)
    → parse_one_request buf ≡ o
    → ((r : CapturedRequest) (n : ℕ) → o ≡ returned (complete r n) → Done (drop n buf))
    → Done buf
unfolding round
IsDone-round buf panicked e ih = IsDone-stopped buf crashed (λ q. cc) (by_case buf _ e)
IsDone-round buf (returned incomplete) e ih = IsDone-stopped buf starved (λ q. cc) (by_case buf _ e)
IsDone-round buf (returned empty) e ih = IsDone-stopped buf failed (λ q. cc) (by_case buf _ e)
IsDone-round buf (returned (malformed l)) e ih =
    IsDone-stopped buf failed (λ q. cc) (by_case buf _ e)
IsDone-round buf (returned (complete r n)) e ih =
    let (_, within) = complete_bounds buf r n e in
    rw (by_case buf _ e)
      (IsDone-prepend buf r n (parse_http_requests (drop n buf)) within (ih r n refl))

-- The loop of parseHTTPRequests ends on every buffer, within it, and leaves nothing that it could
-- still read: on the rest it stops at once, for the same reason.
pub parse_http_requests-IsDone : (buf : Bytes) → IsDone buf (parse_http_requests buf)
parse_http_requests-IsDone = Batch-induction Done IsDone-round

-- With no request the batch is empty in its other fields too.
pub no_requests :
    (buf : Bytes)
    → (parse_http_requests buf).requests ≡ []
    → parse_http_requests buf ≡ stopped (parse_http_requests buf).stop
no_requests buf e = go (parse_one_request buf) refl
  where
    go :
        (o : Run Parsed)
        → parse_one_request buf ≡ o
        → parse_http_requests buf ≡ stopped (parse_http_requests buf).stop
    go panicked q = unfold round in rw (by_case buf _ q)
    go (returned incomplete) q = unfold round in rw (by_case buf _ q)
    go (returned empty) q = unfold round in rw (by_case buf _ q)
    go (returned (malformed l)) q = unfold round in rw (by_case buf _ q)
    go (returned (complete r n)) q = unfold round in cc (rw (by_case buf _ q) at e)

stopped_crashed :
    (buf : Bytes)
    → (parse_http_requests buf).requests ≡ []
    → (parse_http_requests buf).stop ≡ crashed
    → parse_one_request buf ≡ panicked
stopped_crashed buf none_yet e = go (parse_one_request buf) refl
  where
    go : (o : Run Parsed) → parse_one_request buf ≡ o → parse_one_request buf ≡ panicked
    go panicked q = q
    go (returned incomplete) q = unfold round in cc (rw (by_case buf _ q) at e)
    go (returned empty) q = unfold round in cc (rw (by_case buf _ q) at e)
    go (returned (malformed l)) q = unfold round in cc (rw (by_case buf _ q) at e)
    go (returned (complete r n)) q = unfold round in cc (rw (by_case buf _ q) at none_yet)

-- A buffer whose parsing panics still does so with more bytes behind it.
pub crashed-append :
    (buf t : Bytes)
    → (parse_http_requests buf).stop ≡ crashed
    → (parse_http_requests (buf ++ t)).stop ≡ crashed
unfolding round
crashed-append buf t e =
    let rest = leftover buf in
    let d = (parse_http_requests-IsDone buf).nothing_left in
    let at_front : parse_one_request rest ≡ panicked =
      stopped_crashed rest (ap (λ (b : Batch). b.requests) d) (ap (λ (b : Batch). b.stop) d ∙ e) in
    let still : parse_one_request (rest ++ t) ≡ panicked =
      parse_one_request-append rest t (rw at_front (λ q. cc)) ∙ at_front in
    ap (λ (b : Batch). b.stop) (parse_http_requests-append buf t)
    ∙ ap (λ (b : Batch). b.stop) (by_case (rest ++ t) panicked still)

-- What two parts leave over is what the second leaves of the first's rest.
pub leftover-append : (buf t : Bytes) → leftover (buf ++ t) ≡ leftover (leftover buf ++ t)
leftover-append buf t =
    let b = parse_http_requests buf in
    let c = parse_http_requests (leftover buf ++ t) in
    ap (λ (x : Batch). drop x.consumed (buf ++ t)) (parse_http_requests-append buf t)
    ∙ sym (drop-drop b.consumed c.consumed (buf ++ t))
    ∙ ap (drop c.consumed) (drop-append b.consumed buf t (parse_http_requests-IsDone buf).within)
