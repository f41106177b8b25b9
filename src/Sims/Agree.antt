-- ===== src/Sims/Agree.antt =====
-- What a mirrored request gets from ewp-sim, beside what the original got from apigee-sim.
use mirror_agent.Base.{ℕ, Option, none, some, ◌≡◌, inl, inr, refl, arith, Bytes}
use mirror_agent.Go.Strings.{equal}
use mirror_agent.Sims.Http.{
  Incoming, Fields, Platform, Reply, answered, refused, redirected, broken_off, reported,
  Registered,
}
use mirror_agent.Sims.Ewp.{Ewp}
use mirror_agent.Sims.Ewp
use mirror_agent.Sims.Ewp.Handlers
use mirror_agent.Sims.Apigee
use mirror_agent.Sims.Apigee.{Apigee}

-- The status line that the client reads; `none` where the connection is closed.
abbrev pub status_of : Reply → Option ℕ
status_of (answered status v) = some status
status_of (refused status message) = some status
status_of redirected = some 301
status_of broken_off = none
status_of reported = some 200

module _ (p : Platform) where
  products_post-status :
      (s : Ewp p) (a : Apigee) (r : Incoming) (body : Option Fields)
      → status_of (Handlers.products_post p s r body).1
        ≡ status_of (Apigee.products_post a r body).1
  unfolding Handlers.products_post Apigee.products_post Ewp.answer Apigee.answer
  products_post-status s a r none = refl
  products_post-status s a r (some body) = refl

  orders_post-status :
      (s : Ewp p) (a : Apigee) (r : Incoming) (body : Option Fields)
      → status_of (Handlers.orders_post p s r body).1 ≡ status_of (Apigee.orders_post a r body).1
  unfolding Handlers.orders_post Apigee.orders_post Ewp.answer Apigee.answer
  orders_post-status s a r none = refl
  orders_post-status s a r (some body) = refl

  -- One handler of each server, on the same request, in any states of the two.
  abbrev SameStatus :
      (Ewp p → Incoming → Ewp p × Reply) → (Apigee → Incoming → Apigee × Reply) → Type 0
  SameStatus f g =
      (s : Ewp p) (a : Apigee) (r : Incoming) → status_of (f s r).1 ≡ status_of (g a r).1

  products_handler-SameStatus : SameStatus (Handlers.products_handler p) (Apigee.products_handler p)
  unfolding Handlers.products_handler Apigee.products_handler Ewp.answer Apigee.answer Apigee.refuse
  products_handler-SameStatus s a r = ground (
    arith,
    products_post-status (Handlers.counted p s r) (Apigee.count_request a) r
        (p.decode_object r.body),
  )

  orders_handler-SameStatus : SameStatus (Handlers.orders_handler p) (Apigee.orders_handler p)
  unfolding Handlers.orders_handler Apigee.orders_handler Ewp.answer Apigee.answer Apigee.refuse
  orders_handler-SameStatus s a r = ground (
    arith,
    orders_post-status (Handlers.counted p s r) (Apigee.count_request a) r (p.decode_object r.body),
  )

  users_handler-SameStatus : SameStatus (Handlers.users_handler p) Apigee.users_handler
  unfolding Handlers.users_handler Apigee.users_handler Ewp.answer Apigee.answer
  users_handler-SameStatus s a r = ground arith

  handle-SameStatus :
      (k : Bytes)
      → Registered k Apigee.patterns
      → SameStatus (Handlers.handle p k) (Apigee.handle p k)
  unfolding Handlers.handle Apigee.handle equal Handlers.health_handler Apigee.health_handler
      Apigee.answer Handlers.metrics_handler Apigee.metrics_handler Handlers.echo_handler Ewp.answer
      Apigee.echo_handler
  handle-SameStatus k (inl e) s a r = rw e refl
  handle-SameStatus k (inr (inl e)) s a r = rw e (products_handler-SameStatus s a r)
  handle-SameStatus k (inr (inr (inl e))) s a r = rw e (orders_handler-SameStatus s a r)
  handle-SameStatus k (inr (inr (inr (inl e)))) s a r = rw e (users_handler-SameStatus s a r)
  handle-SameStatus k (inr (inr (inr (inr (inl e))))) s a r = rw e refl
  handle-SameStatus k (inr (inr (inr (inr (inr (inl e)))))) s a r = rw e refl
  handle-SameStatus k (inr (inr (inr (inr (inr (inr none_left)))))) s a r = elim none_left [ ]

  dispatch-SameStatus :
      (k : Option Bytes)
      → ((pattern : Bytes) → k ≡ some pattern → Registered pattern Apigee.patterns)
      → SameStatus (Handlers.dispatch p k) (Apigee.dispatch p k)
  unfolding Handlers.dispatch Apigee.dispatch
  dispatch-SameStatus none h s a r = refl
  dispatch-SameStatus (some pattern) h s a r = handle-SameStatus pattern (h pattern refl) s a r

  -- Where ServeMux picks the same pattern on both servers, and one that is registered, or redirects on
  -- both: the two answer any request with the same status, or both break the connection off, whatever
  -- requests each of them has served before.
  pub serve-status :
      (s : Ewp p) (a : Apigee) (r : Incoming)
      → p.pattern_for Handlers.patterns r.path ≡ p.pattern_for Apigee.patterns r.path
      → ((pattern : Bytes)
          → p.pattern_for Apigee.patterns r.path ≡ some pattern
          → Registered pattern Apigee.patterns)
      → status_of (Handlers.serve p s r).1 ≡ status_of (Apigee.serve p a r).1
  unfolding Handlers.serve Apigee.serve
  serve-status s a r same listed =
      rw same (dispatch-SameStatus (p.pattern_for Apigee.patterns r.path) listed s a r)
