-- ===== src/Sims/Ewp/Log.antt =====
-- What stands in the log of ewp-sim after any requests.
use mirror_agent.Base.{
  ℕ, ◌+◌, ◌≤◌, Bool, true, false, Option, none, some, List, [], ◌∷◌, ◌++◌, ◌≡◌, refl, ap, ◌∙◌, inl,
  inr, arith, ltb-false, ltb, if◌then◌else◌, Bytes, codes, length, Bool-cases, append_assoc,
  append-nil, length-append,
}
use mirror_agent.Go.Strings.{equal}
use mirror_agent.Sims.Http.{Reply, Incoming, Fields, Value, Platform, is_mirrored}
use mirror_agent.Sims.Ewp.Entries.{
  length-keep_last, keep_last-append, posted, api_status, status_at, status_for, status_of,
  recorded, entries,
}
use mirror_agent.Sims.Ewp.{
  is_success, ValidationEntry, keep_last, Ewp, log_entry, count_request, count_success,
  record_outcome, answer, count_mirrored,
}
use mirror_agent.Sims.Payload.{users_prefix}
use mirror_agent.Sims.Ewp.Handlers.{
  patterns, counted, products_post, orders_post, health_handler, products_handler, orders_handler,
  users_handler, metrics_handler, set_threshold, config_handler, echo_handler, handle, dispatch,
  serve, serve_all,
}

module _ (p : Platform) where
  abbrev extended : List ValidationEntry → List ValidationEntry → List ValidationEntry
  extended log [] = log
  extended log (e ∷ es) = keep_last (log ++ (e ∷ es))

  -- The log and the counter of successes are as they were.
  abbrev Keeps : Ewp p → Ewp p → Type 0
  Keeps s t = (t.validation_log ≡ s.validation_log) × (t.success_count ≡ s.success_count)

  -- The log has the new entries, and each counts as a success.
  abbrev Adds : Ewp p → List ValidationEntry → Ewp p → Type 0
  Adds s es t =
      (t.validation_log ≡ extended s.validation_log es)
      × (t.success_count ≡ s.success_count + length es)

  -- A handler records what the status says.
  abbrev Logs : Ewp p → Incoming → Option ℕ → Ewp p × Reply → Type 0
  Logs s r status result = Adds s (recorded p (is_mirrored r) status r) result.0

  Keeps-Adds : (s t u : Ewp p) (es : List ValidationEntry) → Keeps s t → Adds t es u → Adds s es u
  Keeps-Adds s t u es k a = (a.0 ∙ ap (λ l. extended l es) k.0, a.1 ∙ ap (λ n. n + length es) k.1)

  answer-Logs :
      (s : Ewp p) (r : Incoming) (status : ℕ) (v : Value)
      → is_success status ≡ true
      → Logs s r (some status) (answer p s r status v)
  unfolding answer record_outcome log_entry count_success
  answer-Logs s r status v ok = elim (Bool-cases (is_mirrored r)) [
    | inl e ↦ rw (e, ok) (refl, refl)
    | inr e ↦ rw (e, ok) (refl, omega arith)
  ]

  counted-Keeps : (s : Ewp p) (r : Incoming) → Keeps s (counted p s r)
  unfolding counted count_mirrored count_request
  counted-Keeps s r = ground arith

  count_mirrored-Keeps : (s : Ewp p) (r : Incoming) → Keeps s (count_mirrored p s r)
  unfolding count_mirrored
  count_mirrored-Keeps s r = ground arith

  not_recorded : (b : Bool) (r : Incoming) → recorded p b none r ≡ []
  not_recorded true r = refl
  not_recorded false r = refl

  answer_from :
      (s t : Ewp p) (r : Incoming) (status : ℕ) (v : Value)
      → is_success status ≡ true
      → Keeps s t
      → Logs s r (some status) (answer p t r status v)
  answer_from s t r status v ok k =
      Keeps-Adds s t (answer p t r status v).0 _ k (answer-Logs t r status v ok)

  unrecorded :
      (s t : Ewp p) (r : Incoming) → Keeps s t → Adds s (recorded p (is_mirrored r) none r) t
  unrecorded s t r k = rw (not_recorded (is_mirrored r) r) (k.0, k.1 ∙ omega arith)

  products_post-Logs :
      (s : Ewp p) (r : Incoming) (body : Option Fields)
      → Logs s r (posted 201 body) (products_post p (counted p s r) r body)
  unfolding products_post
  products_post-Logs s r none = unrecorded s (counted p s r) r (counted-Keeps s r)
  products_post-Logs s r (some body) = answer_from s _ r 201 _ refl (counted-Keeps s r)

  orders_post-Logs :
      (s : Ewp p) (r : Incoming) (body : Option Fields)
      → Logs s r (posted 202 body) (orders_post p (counted p s r) r body)
  unfolding orders_post
  orders_post-Logs s r none = unrecorded s (counted p s r) r (counted-Keeps s r)
  orders_post-Logs s r (some body) = answer_from s _ r 202 _ refl (counted-Keeps s r)

  products_handler-Logs :
      (s : Ewp p) (r : Incoming) → Logs s r (api_status p 201 r) (products_handler p s r)
  unfolding products_handler
  products_handler-Logs s r = elim (Bool-cases (equal r.method (codes "GET"))) [
    | inl e ↦ rw e (answer_from s _ r 200 _ refl (counted-Keeps s r))
    | inr e ↦ elim (Bool-cases (equal r.method (codes "POST"))) [
      | inl f ↦ rw (e, f) (products_post-Logs s r (p.decode_object r.body))
      | inr f ↦ rw (e, f) (unrecorded s (counted p s r) r (counted-Keeps s r))
    ]
  ]

  orders_handler-Logs :
      (s : Ewp p) (r : Incoming) → Logs s r (api_status p 202 r) (orders_handler p s r)
  unfolding orders_handler
  orders_handler-Logs s r = elim (Bool-cases (equal r.method (codes "GET"))) [
    | inl e ↦ rw e (answer_from s _ r 200 _ refl (counted-Keeps s r))
    | inr e ↦ elim (Bool-cases (equal r.method (codes "POST"))) [
      | inl f ↦ rw (e, f) (orders_post-Logs s r (p.decode_object r.body))
      | inr f ↦ rw (e, f) (unrecorded s (counted p s r) r (counted-Keeps s r))
    ]
  ]

  abbrev user_status : Incoming → Option ℕ
  user_status r = if ltb (length r.path) (length users_prefix) then none else some 200

  users_handler-Logs : (s : Ewp p) (r : Incoming) → Logs s r (user_status r) (users_handler p s r)
  unfolding users_handler
  users_handler-Logs s r = elim (Bool-cases (ltb (length r.path) (length users_prefix))) [
    | inl e ↦ rw e (unrecorded s (counted p s r) r (counted-Keeps s r))
    | inr e ↦ rw e (answer_from s _ r 200 _ refl (counted-Keeps s r))
  ]

  set_threshold-Keeps : (s : Ewp p) (t : Option p.Float) → Keeps s (set_threshold p s t).0
  unfolding set_threshold
  set_threshold-Keeps s none = (refl, refl)
  set_threshold-Keeps s (some t) = ground arith

  config_handler-Keeps : (s : Ewp p) (r : Incoming) → Keeps s (config_handler p s r).0
  unfolding config_handler
  config_handler-Keeps s r = ground (arith, set_threshold-Keeps s (p.decode_threshold r.body))

  handle-Logs :
      (pattern : Bytes) (s : Ewp p) (r : Incoming)
      → Logs s r (status_at p pattern r) (handle p pattern s r)
  unfolding handle
  handle-Logs pattern s r = elim (Bool-cases (equal pattern (codes "/health"))) [
    | inl e ↦ rw e (unfold health_handler in unrecorded s s r (refl, refl))
    | inr e1 ↦ elim (Bool-cases (equal pattern (codes "/api/v1/products"))) [
      | inl e ↦ rw (e1, e) (products_handler-Logs s r)
      | inr e2 ↦ elim (Bool-cases (equal pattern (codes "/api/v1/orders"))) [
        | inl e ↦ rw (e1, e2, e) (orders_handler-Logs s r)
        | inr e3 ↦ elim (Bool-cases (equal pattern users_prefix)) [
          | inl e ↦ rw (e1, e2, e3, e) (users_handler-Logs s r)
          | inr e4 ↦ elim (Bool-cases (equal pattern (codes "/metrics"))) [
            | inl e ↦
                rw (e1, e2, e3, e4, e) (unfold metrics_handler in unrecorded s s r (refl, refl))
            | inr e5 ↦ elim (Bool-cases (equal pattern (codes "/validation-report"))) [
              | inl e ↦ rw (e1, e2, e3, e4, e5, e) (unrecorded s s r (refl, refl))
              | inr e6 ↦ elim (Bool-cases (equal pattern (codes "/config"))) [
                | inl e ↦
                    rw (e1, e2, e3, e4, e5, e6, e)
                      (unrecorded s (config_handler p s r).0 r (config_handler-Keeps s r))
                | inr e7 ↦
                    rw (e1, e2, e3, e4, e5, e6, e7)
                      (unfold echo_handler in
                        answer_from s _ r 200 _ refl (count_mirrored-Keeps s r))
              ]
            ]
          ]
        ]
      ]
    ]
  ]

  dispatch-Logs :
      (pattern : Option Bytes) (s : Ewp p) (r : Incoming)
      → Logs s r (status_for p pattern r) (dispatch p pattern s r)
  unfolding dispatch
  dispatch-Logs none s r = unrecorded s s r (refl, refl)
  dispatch-Logs (some pattern) s r = handle-Logs pattern s r

  extended-keep_last :
      (log es : List ValidationEntry) → length log ≤ 1000 → extended log es ≡ keep_last (log ++ es)
  unfolding keep_last
  extended-keep_last log [] few = rw (append-nil log, ltb-false 1000 (length log) few) refl
  extended-keep_last log (e ∷ es) few = refl

  serve-Adds : (s : Ewp p) (r : Incoming) → Logs s r (status_of p r) (serve p s r)
  unfolding serve status_of
  serve-Adds s r = dispatch-Logs (p.pattern_for patterns r.path) s r

  pub serve_all-keep_last :
      (rs : List Incoming) (s : Ewp p)
      → length s.validation_log ≤ 1000
      → (serve_all p s rs).validation_log ≡ keep_last (s.validation_log ++ entries p rs)
  unfolding serve_all entries
  serve_all-keep_last [] s few = extended-keep_last s.validation_log [] few
  serve_all-keep_last (r ∷ rs) s few =
      let new = recorded p (is_mirrored r) (status_of p r) r in
      let e = (serve-Adds s r).0 ∙ extended-keep_last s.validation_log new few in
      let few' : length (serve p s r).0.validation_log ≤ 1000 =
        rw e (length-keep_last (s.validation_log ++ new)) in
      serve_all-keep_last rs (serve p s r).0 few'
      ∙ ap (λ l. keep_last (l ++ entries p rs)) e
      ∙ keep_last-append (s.validation_log ++ new) (entries p rs)
      ∙ ap keep_last (append_assoc s.validation_log new (entries p rs))

  -- The counter of successes grows by one for each entry made, whether or not the log still has it.
  pub serve_all-success_count :
      (rs : List Incoming) (s : Ewp p)
      → (serve_all p s rs).success_count ≡ s.success_count + length (entries p rs)
  unfolding serve_all entries
  serve_all-success_count [] s = omega arith
  serve_all-success_count (r ∷ rs) s =
      let new = recorded p (is_mirrored r) (status_of p r) r in
      omega (
        arith,
        serve_all-success_count rs (serve p s r).0,
        (serve-Adds s r).1,
        length-append new (entries p rs),
      )
