-- ===== src/Sims/Ewp/Verdict.antt =====
-- What ewp-sim can report at all: the statuses it records, and the thresholds it accepts.
use mirror_agent.Base.{
  ℕ, zero, suc, Bool, true, false, ◌||◌, Option, none, some, List, [], ◌∷◌, ◌≡◌, refl, ap, ◌∙◌, inl,
  inr, arith, ltb, Bytes, codes, length, drop, Bool-cases, Option-cases, All, length-drop, if_both,
  ◌-◌, All-append,
}
use mirror_agent.Go.Strings.{equal}
use mirror_agent.Sims.Http.{Reply, Incoming, Fields, Value, Platform, is_mirrored}
use mirror_agent.Sims.Ewp.{
  ValidationEntry, keep_last, is_success, entry_of, Ewp, started, answer, record_outcome, log_entry,
  count_success, count_request, count_mirrored,
}
use mirror_agent.Sims.Payload.{users_prefix}
use mirror_agent.Sims.Ewp.Handlers.{
  patterns, counted, products_post, orders_post, health_handler, products_handler, orders_handler,
  users_handler, metrics_handler, set_threshold, config_handler, echo_handler, handle, dispatch,
  serve, serve_all,
}
use mirror_agent.Sims.Ewp.Entries.{posted, api_status, status_at, status_of, recorded, entries}
use mirror_agent.Sims.Ewp.Log.{serve_all-keep_last}
use mirror_agent.Sims.Ewp.Report.{report}
use mirror_agent.Sims.Ewp.Report.Ready.{Passed, DividesOut, report-Passed}

drop-All {ℓ} : {A : Type 0} (P : A → Type ℓ) (n : ℕ) (xs : List A) → All P xs → All P (drop n xs)
drop-All P zero xs h = h
drop-All P (suc n) [] h = tt
drop-All P (suc n) (x ∷ xs) h = drop-All P n xs h.1

keep_last-Passed : (log : List ValidationEntry) → All Passed log → All Passed (keep_last log)
unfolding keep_last
keep_last-Passed log h = elim (Bool-cases (ltb 1000 (length log))) [
  | inl e ↦ rw e (drop-All Passed _ log h)
  | inr e ↦ rw e h
]

ltb-keep_last : (log : List ValidationEntry) → ltb 0 (length (keep_last log)) ≡ ltb 0 (length log)
unfolding keep_last
ltb-keep_last log = ground (arith, length-drop (length log - 1000) log)

-- A status that counts as passed.
data Good : Option ℕ → Type 0 where
  nothing : Good none
  good : {status : ℕ} → is_success status ≡ true → Good (some status)

answered_200 : Good (some 200)
answered_200 = good refl

posted-Good :
    (status : ℕ) (body : Option Fields) → is_success status ≡ true → Good (posted status body)
posted-Good status none h = nothing
posted-Good status (some body) h = good h

module _ (p : Platform) where
  api_status-Good :
      (created : ℕ) (r : Incoming) → is_success created ≡ true → Good (api_status p created r)
  api_status-Good created r h =
      if_both Good _ (good refl)
        (if_both Good _ (posted-Good created (p.decode_object r.body) h) nothing)

  status_at-Good : (pattern : Bytes) (r : Incoming) → Good (status_at p pattern r)
  status_at-Good pattern r = if_both Good (equal pattern (codes "/health")) nothing (
      if_both Good (equal pattern (codes "/api/v1/products")) (api_status-Good 201 r refl) (
        if_both Good (equal pattern (codes "/api/v1/orders")) (api_status-Good 202 r refl) (
          if_both Good (equal pattern users_prefix)
            (if_both Good (ltb (length r.path) (length users_prefix)) nothing answered_200)
            (if_both Good (equal pattern (codes "/metrics")) nothing (
              if_both Good (equal pattern (codes "/validation-report")) nothing
                (if_both Good (equal pattern (codes "/config")) nothing answered_200))))))

  status_of-Good : (r : Incoming) → Good (status_of p r)
  unfolding status_of
  status_of-Good r = elim (Option-cases (p.pattern_for patterns r.path)) [
    | inl e ↦ rw e nothing
    | inr (pattern, e) ↦ rw e (status_at-Good pattern r)
  ]

  recorded-Passed :
      (b : Bool) (status : Option ℕ) (r : Incoming)
      → Good status
      → All Passed (recorded p b status r)
  unfolding entry_of
  recorded-Passed true (some status) r (good h) = (h, tt)
  recorded-Passed true none r h = tt
  recorded-Passed false status r h = tt

  entries-Passed : (rs : List Incoming) → All Passed (entries p rs)
  unfolding entries
  entries-Passed [] = tt
  entries-Passed (r ∷ rs) =
      All-append Passed _ (entries p rs)
        (recorded-Passed (is_mirrored r) (status_of p r) r (status_of-Good r)) (entries-Passed rs)

  -- The threshold is at most 100.
  abbrev Within : Ewp p → Type 0
  Within s = p.le s.ready_thresh_pct (p.of_int 100) ≡ true

  record StaysWithin (result : Ewp p × Reply) : Type 0 where
    within : Within result.0

  answer-Within :
      (s : Ewp p) (r : Incoming) (status : ℕ) (v : Value)
      → Within s
      → StaysWithin (answer p s r status v)
  unfolding answer record_outcome log_entry count_success
  answer-Within s r status v h = record { within = ground (arith, h) }

  counted-Within : (s : Ewp p) (r : Incoming) → Within s → Within (counted p s r)
  unfolding counted count_mirrored count_request
  counted-Within s r h = ground (arith, h)

  set_threshold-Within :
      (s : Ewp p) (t : Option p.Float) → Within s → StaysWithin (set_threshold p s t)
  unfolding set_threshold
  set_threshold-Within s none h = record { within = h }
  set_threshold-Within s (some t) h = record { within = ground (arith, h) }

  products_post-Within :
      (s : Ewp p) (r : Incoming) (body : Option Fields)
      → Within s
      → StaysWithin (products_post p s r body)
  unfolding products_post
  products_post-Within s r none h = record { within = h }
  products_post-Within s r (some body) h = answer-Within s r 201 _ h

  orders_post-Within :
      (s : Ewp p) (r : Incoming) (body : Option Fields)
      → Within s
      → StaysWithin (orders_post p s r body)
  unfolding orders_post
  orders_post-Within s r none h = record { within = h }
  orders_post-Within s r (some body) h = answer-Within s r 202 _ h

  echo_handler-Within : (s : Ewp p) (r : Incoming) → Within s → StaysWithin (echo_handler p s r)
  unfolding echo_handler count_mirrored
  echo_handler-Within s r h = answer-Within _ r 200 _ (if_both Within (is_mirrored r) h h)

  at_rest : (s : Ewp p) (reply : Reply) → Within s → StaysWithin (s, reply)
  at_rest s reply h = record { within = h }

  products_handler-Within :
      (s : Ewp p) (r : Incoming) → Within s → StaysWithin (products_handler p s r)
  unfolding products_handler
  products_handler-Within s r h =
      let h' = counted-Within s r h in
      if_both StaysWithin (equal r.method (codes "GET")) (answer-Within (counted p s r) r 200 _ h')
        (if_both StaysWithin (equal r.method (codes "POST"))
          (products_post-Within (counted p s r) r _ h') (at_rest (counted p s r) _ h'))

  orders_handler-Within : (s : Ewp p) (r : Incoming) → Within s → StaysWithin (orders_handler p s r)
  unfolding orders_handler
  orders_handler-Within s r h =
      let h' = counted-Within s r h in
      if_both StaysWithin (equal r.method (codes "GET")) (answer-Within (counted p s r) r 200 _ h')
        (if_both StaysWithin (equal r.method (codes "POST"))
          (orders_post-Within (counted p s r) r _ h') (at_rest (counted p s r) _ h'))

  users_handler-Within : (s : Ewp p) (r : Incoming) → Within s → StaysWithin (users_handler p s r)
  unfolding users_handler
  users_handler-Within s r h =
      let h' = counted-Within s r h in
      if_both StaysWithin (ltb (length r.path) (length users_prefix)) (at_rest (counted p s r) _ h')
        (answer-Within (counted p s r) r 200 _ h')

  config_handler-Within : (s : Ewp p) (r : Incoming) → Within s → StaysWithin (config_handler p s r)
  unfolding config_handler
  config_handler-Within s r h = if_both StaysWithin (equal r.method (codes "GET")) (at_rest s _ h) (
      if_both StaysWithin (equal r.method (codes "PUT") || equal r.method (codes "POST"))
        (set_threshold-Within s (p.decode_threshold r.body) h) (at_rest s _ h))

  handle-Within :
      (pattern : Bytes) (s : Ewp p) (r : Incoming) → Within s → StaysWithin (handle p pattern s r)
  unfolding handle health_handler metrics_handler
  handle-Within pattern s r h =
      if_both StaysWithin (equal pattern (codes "/health")) (at_rest s _ h) (
        if_both StaysWithin (equal pattern (codes "/api/v1/products"))
          (products_handler-Within s r h)
          (if_both StaysWithin (equal pattern (codes "/api/v1/orders"))
            (orders_handler-Within s r h)
            (if_both StaysWithin (equal pattern users_prefix) (users_handler-Within s r h) (
              if_both StaysWithin (equal pattern (codes "/metrics")) (at_rest s _ h) (
                if_both StaysWithin (equal pattern (codes "/validation-report")) (at_rest s _ h) (
                  if_both StaysWithin (equal pattern (codes "/config"))
                    (config_handler-Within s r h) (echo_handler-Within s r h)))))))

  serve-Within : (s : Ewp p) (r : Incoming) → Within s → StaysWithin (serve p s r)
  unfolding serve dispatch
  serve-Within s r h = elim (Option-cases (p.pattern_for patterns r.path)) [
    | inl e ↦ rw e (record { within = h })
    | inr (pattern, e) ↦ rw e (handle-Within pattern s r h)
  ]

  serve_all-Within : (rs : List Incoming) (s : Ewp p) → Within s → Within (serve_all p s rs)
  unfolding serve_all
  serve_all-Within [] s h = h
  serve_all-Within (r ∷ rs) s h = serve_all-Within rs (serve p s r).0 (serve-Within s r h).within

  -- Whatever requests the server has had, whatever thresholds it was given and however requests were
  -- refused on the way, its report has no failure, and it is ready to cut as soon as one mirrored
  -- request has been recorded. (100 is at most 100, and n / n * 100 is 100.)
  pub report-serve_all :
      DividesOut p
      → p.le (p.of_int 100) (p.of_int 100) ≡ true
      → (rs : List Incoming)
      → ((report p (serve_all p (started p) rs)).failed ≡ 0)
        × ((report p (serve_all p (started p) rs)).ready_to_cut ≡ ltb 0 (length (entries p rs)))
  report-serve_all law h rs =
      let s = serve_all p (started p) rs in
      let e : s.validation_log ≡ keep_last (entries p rs) =
        serve_all-keep_last p rs (started p) (omega arith) in
      let passed : All Passed s.validation_log =
        rw e (keep_last-Passed (entries p rs) (entries-Passed rs)) in
      let (none_failed, ready) = report-Passed p law s (serve_all-Within rs (started p) h) passed in
      (none_failed, ready ∙ ap (λ l. ltb 0 (length l)) e ∙ ltb-keep_last (entries p rs))
