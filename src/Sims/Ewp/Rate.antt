-- ===== src/Sims/Ewp/Rate.antt =====
-- The counters behind the success rate of /metrics.
use mirror_agent.Base.{
  ℕ, ◌+◌, ◌≤◌, ◌||◌, not, Option, none, some, List, [], ◌∷◌, ◌≡◌, refl, arith, ltb, if◌then◌else◌,
  Bytes, codes, length, if_both,
}
use mirror_agent.Go.Strings.{equal}
use mirror_agent.Sims.Http.{Incoming, Value, Fields, Platform, Reply, is_mirrored}
use mirror_agent.Sims.Payload.{users_prefix}
use mirror_agent.Sims.Ewp.{
  Ewp, count_request, count_mirrored, count_success, log_entry, record_outcome, answer,
}
use mirror_agent.Sims.Ewp.Handlers.{
  patterns, counted, health_handler, products_post, products_handler, orders_post, orders_handler,
  users_handler, metrics_handler, set_threshold, config_handler, echo_handler, handle, dispatch,
  serve, serve_all,
}

-- One for a request that the agent has sent.
abbrev mirror_one : Incoming → ℕ
mirror_one r = if is_mirrored r then 1 else 0

abbrev pub all_mirrored : List Incoming → ℕ
all_mirrored [] = 0
all_mirrored (r ∷ rs) = mirror_one r + all_mirrored rs

module _ (p : Platform) where
  -- A request adds no success without a mirrored request, and counts as at most one.
  record Gains (s : Ewp p) (r : Incoming) (result : Ewp p × Reply) : Type 0 where
    success_mirrored :
        result.0.success_count + s.mirrored_count ≤ s.success_count + result.0.mirrored_count
    at_most_one : result.0.mirrored_count ≤ s.mirrored_count + mirror_one r

  unchanged-Gains :
      (s t : Ewp p) (r : Incoming) (reply : Reply)
      → t.success_count ≡ s.success_count
      → t.mirrored_count ≡ s.mirrored_count
      → Gains s r (t, reply)
  unchanged-Gains s t r reply a b = record {
    success_mirrored = omega arith;
    at_most_one = omega arith;
  }

  count_mirrored_lem :
      (s : Ewp p) (r : Incoming)
      → ((count_mirrored p s r).mirrored_count ≡ s.mirrored_count + mirror_one r)
        × ((count_mirrored p s r).success_count ≡ s.success_count)
  unfolding count_mirrored
  count_mirrored_lem s r = ground arith

  counted_lem :
      (s : Ewp p) (r : Incoming)
      → ((counted p s r).mirrored_count ≡ s.mirrored_count + mirror_one r)
        × ((counted p s r).success_count ≡ s.success_count)
  unfolding counted count_request
  counted_lem s r = count_mirrored_lem (count_request p s) r

  counted-Gains : (s : Ewp p) (r : Incoming) (reply : Reply) → Gains s r (counted p s r, reply)
  counted-Gains s r reply = record {
    success_mirrored = omega (arith, counted_lem s r);
    at_most_one = omega (arith, counted_lem s r);
  }

  answer_lem :
      (s : Ewp p) (r : Incoming) (status : ℕ) (v : Value)
      → ((answer p s r status v).0.mirrored_count ≡ s.mirrored_count)
        × ((answer p s r status v).0.success_count ≤ s.success_count + mirror_one r)
  unfolding answer record_outcome count_success log_entry
  answer_lem s r status v = ground arith

  answer-Gains :
      (s t : Ewp p) (r : Incoming) (status : ℕ) (v : Value)
      → (t.mirrored_count ≡ s.mirrored_count + mirror_one r) × (t.success_count ≡ s.success_count)
      → Gains s r (answer p t r status v)
  answer-Gains s t r status v c = record {
    success_mirrored = omega (arith, c, answer_lem t r status v);
    at_most_one = omega (arith, c, answer_lem t r status v);
  }

  products_post-Gains :
      (s : Ewp p) (r : Incoming) (body : Option Fields)
      → Gains s r (products_post p (counted p s r) r body)
  unfolding products_post
  products_post-Gains s r none = counted-Gains s r _
  products_post-Gains s r (some body) = answer-Gains s _ r 201 _ (counted_lem s r)

  orders_post-Gains :
      (s : Ewp p) (r : Incoming) (body : Option Fields)
      → Gains s r (orders_post p (counted p s r) r body)
  unfolding orders_post
  orders_post-Gains s r none = counted-Gains s r _
  orders_post-Gains s r (some body) = answer-Gains s _ r 202 _ (counted_lem s r)

  products_handler-Gains : (s : Ewp p) (r : Incoming) → Gains s r (products_handler p s r)
  unfolding products_handler
  products_handler-Gains s r =
      if_both (Gains s r) (equal r.method (codes "GET"))
        (answer-Gains s _ r 200 _ (counted_lem s r))
        (if_both (Gains s r) (equal r.method (codes "POST")) (products_post-Gains s r _)
          (counted-Gains s r _))

  orders_handler-Gains : (s : Ewp p) (r : Incoming) → Gains s r (orders_handler p s r)
  unfolding orders_handler
  orders_handler-Gains s r =
      if_both (Gains s r) (equal r.method (codes "GET"))
        (answer-Gains s _ r 200 _ (counted_lem s r))
        (if_both (Gains s r) (equal r.method (codes "POST")) (orders_post-Gains s r _)
          (counted-Gains s r _))

  users_handler-Gains : (s : Ewp p) (r : Incoming) → Gains s r (users_handler p s r)
  unfolding users_handler
  users_handler-Gains s r =
      if_both (Gains s r) (ltb (length r.path) (length users_prefix)) (counted-Gains s r _)
        (answer-Gains s _ r 200 _ (counted_lem s r))

  set_threshold-Gains :
      (s : Ewp p) (r : Incoming) (t : Option p.Float) → Gains s r (set_threshold p s t)
  unfolding set_threshold
  set_threshold-Gains s r none = unchanged-Gains s s r _ refl refl
  set_threshold-Gains s r (some t) =
      if_both (Gains s r) (not (p.le (p.of_int 0) t) || not (p.le t (p.of_int 100)))
        (unchanged-Gains s s r _ refl refl) (unchanged-Gains s _ r _ refl refl)

  config_handler-Gains : (s : Ewp p) (r : Incoming) → Gains s r (config_handler p s r)
  unfolding config_handler
  config_handler-Gains s r =
      if_both (Gains s r) (equal r.method (codes "GET")) (unchanged-Gains s s r _ refl refl) (
        if_both (Gains s r) (equal r.method (codes "PUT") || equal r.method (codes "POST"))
          (set_threshold-Gains s r _) (unchanged-Gains s s r _ refl refl))

  handle-Gains : (pattern : Bytes) (s : Ewp p) (r : Incoming) → Gains s r (handle p pattern s r)
  unfolding handle
  handle-Gains pattern s r =
      if_both (Gains s r) (equal pattern (codes "/health"))
        (unfold health_handler in unchanged-Gains s s r _ refl refl)
        (if_both (Gains s r) (equal pattern (codes "/api/v1/products")) (products_handler-Gains s r)
          (if_both (Gains s r) (equal pattern (codes "/api/v1/orders")) (orders_handler-Gains s r) (
            if_both (Gains s r) (equal pattern users_prefix) (users_handler-Gains s r) (
              if_both (Gains s r) (equal pattern (codes "/metrics"))
                (unfold metrics_handler in unchanged-Gains s s r _ refl refl)
                (if_both (Gains s r) (equal pattern (codes "/validation-report"))
                  (unchanged-Gains s s r _ refl refl)
                  (if_both (Gains s r) (equal pattern (codes "/config")) (config_handler-Gains s r)
                    (unfold echo_handler in answer-Gains s _ r 200 _ (count_mirrored_lem s r))))))))

  dispatch-Gains :
      (pattern : Option Bytes) (s : Ewp p) (r : Incoming) → Gains s r (dispatch p pattern s r)
  unfolding dispatch
  dispatch-Gains none s r = unchanged-Gains s s r _ refl refl
  dispatch-Gains (some pattern) s r = handle-Gains pattern s r

  -- Over any requests, one after the other, no more successes are counted than mirrored requests, if
  -- there were no more before; and no more mirrored requests are counted than requests with the agent's
  -- header came in.
  pub serve_all-success_mirrored :
      (rs : List Incoming) (s : Ewp p)
      → s.success_count ≤ s.mirrored_count
      → ((serve_all p s rs).success_count ≤ (serve_all p s rs).mirrored_count)
        × ((serve_all p s rs).mirrored_count ≤ s.mirrored_count + all_mirrored rs)
  unfolding serve_all serve
  serve_all-success_mirrored [] s h = (h, omega arith)
  serve_all-success_mirrored (r ∷ rs) s h =
      let t = (dispatch p (p.pattern_for patterns r.path) s r).0 in
      let g = dispatch-Gains (p.pattern_for patterns r.path) s r in
      let (a, b) = serve_all-success_mirrored rs t (omega (arith, g.success_mirrored)) in
      (a, omega (arith, b, g.at_most_one))
