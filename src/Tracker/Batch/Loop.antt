-- ===== src/Tracker/Batch/Loop.antt =====
-- The loop's equation with no fuel in it, and induction along its rounds.
use mirror_agent.Base.{
  ℕ, zero, suc, ◌<◌, ◌≡◌, refl, ap, ◌∙◌, arith, Bytes, length, drop, length-drop,
}
use mirror_agent.Go.Panic.{Run, returned, panicked}
use mirror_agent.Tracker.Request.{
  CapturedRequest, Parsed, incomplete, empty, malformed, complete, parse_one_request,
}
use mirror_agent.Tracker.Request.Complete.{complete_bounds}
use mirror_agent.Tracker.Batch.{Batch, prepend, round, parse_rounds, parse_http_requests}

round-cong :
    (o : Run Parsed) (f g : ℕ → Batch)
    → ((r : CapturedRequest) (n : ℕ) → o ≡ returned (complete r n) → f n ≡ g n)
    → round o f ≡ round o g
unfolding round
round-cong panicked f g h = refl
round-cong (returned incomplete) f g h = refl
round-cong (returned empty) f g h = refl
round-cong (returned (malformed l)) f g h = refl
round-cong (returned (complete r n)) f g h = ap (prepend r n) (h r n refl)

-- The rounds with fuel to spare are those with just enough.
parse_rounds_enough :
    (f g : ℕ) (buf : Bytes)
    → length buf < f
    → length buf < g
    → parse_rounds f buf ≡ parse_rounds g buf
unfolding parse_rounds
parse_rounds_enough zero g buf h k = absurd (omega arith)
parse_rounds_enough (suc f) zero buf h k = absurd (omega arith)
parse_rounds_enough (suc f) (suc g) buf h k = round-cong (parse_one_request buf) _ _ λ r n e.
    parse_rounds_enough f g (drop n buf)
      (omega (arith, complete_bounds buf r n e, length-drop n buf))
      (omega (arith, complete_bounds buf r n e, length-drop n buf))

-- The loop's equation, with no fuel in it.
pub parse_http_requests_lem :
    (buf : Bytes)
    → parse_http_requests buf
      ≡ round (parse_one_request buf) (λ n. parse_http_requests (drop n buf))
unfolding parse_http_requests
parse_http_requests_lem buf = round-cong (parse_one_request buf) _ _ λ r n e.
    parse_rounds_enough (length buf) (suc (length (drop n buf))) (drop n buf)
      (omega (arith, complete_bounds buf r n e, length-drop n buf)) (omega arith)

-- A claim of a buffer follows from that of what stands behind its first request.
module _ {ℓ} (P : Bytes → Type ℓ)
    (step : (buf : Bytes) (o : Run Parsed)
      → parse_one_request buf ≡ o
      → ((r : CapturedRequest) (n : ℕ) → o ≡ returned (complete r n) → P (drop n buf))
      → P buf) where
  below : (k : ℕ) (buf : Bytes) → length buf < k → P buf
  below zero buf h = absurd (omega arith)
  below (suc k) buf h =
      step buf (parse_one_request buf) refl
        λ r n e. below k (drop n buf) (omega (arith, complete_bounds buf r n e, length-drop n buf))

  pub Batch-induction : (buf : Bytes) → P buf
  Batch-induction buf = below (suc (length buf)) buf (omega arith)

pub by_case :
    (buf : Bytes) (o : Run Parsed)
    → parse_one_request buf ≡ o
    → parse_http_requests buf ≡ round o (λ n. parse_http_requests (drop n buf))
by_case buf o e =
    parse_http_requests_lem buf ∙ ap (λ x. round x (λ n. parse_http_requests (drop n buf))) e
