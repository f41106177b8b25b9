-- ===== src/Sims/Ewp/Handlers.antt =====
-- ewp-sim/main.go: the handlers, and the mux with the patterns that main registers. One request is
-- handled after the other.
use mirror_agent.Base.{
  ℕ, not, ◌||◌, Option, none, some, List, [], ◌∷◌, ◌++◌, ltb, if◌then◌else◌, Bytes, codes, length,
  drop,
}
use mirror_agent.Go.Strings.{equal}
use mirror_agent.Sims.Http.{
  Incoming, Value, text, number, literal, boolean, time, array, object, Fields, no_fields, field,
  Platform, is_mirrored, three_digits, Reply, answered, refused, redirected, broken_off, reported,
}
use mirror_agent.Sims.Payload.{users_prefix, products, orders, set_field, or_unknown, first_values}
use mirror_agent.Sims.Ewp.{Ewp, count_request, count_mirrored, answer}

-- The patterns that main registers.
abbrev pub patterns : List Bytes
patterns =
    codes "/health"
    ∷ codes "/api/v1/products"
    ∷ codes "/api/v1/orders"
    ∷ users_prefix
    ∷ codes "/metrics"
    ∷ codes "/validation-report"
    ∷ codes "/config"
    ∷ codes "/"
    ∷ []

abbrev user : Bytes → ℕ → Value
user id now = object (
    field (codes "userId") (text id) (
      field (codes "name") (text (codes "Test User")) (
        field (codes "email") (text (codes "test@example.com")) (
          field (codes "plan") (text (codes "enterprise")) (
            field (codes "source") (text (codes "ewp")) (
              field (codes "platform") (text (codes "service-mesh"))
                (field (codes "timestamp") (time now) no_fields)))))))

module _ (p : Platform) where
  unfoldable pub health_handler : Ewp p → Incoming → Ewp p × Reply
  health_handler s r = (
    s,
    answered 200 (
        object (
          field (codes "status") (text (codes "UP")) (
            field (codes "service") (text (codes "ewp-sim")) (
              field (codes "version") (text (codes "v2.0.0")) (
                field (codes "platform") (text (codes "service-mesh"))
                  (field (codes "time") (time r.now) no_fields)))))),
  )

  -- Assigning to a nil map panics.
  unfoldable pub products_post : Ewp p → Incoming → Option Fields → Ewp p × Reply
  products_post s r none = (s, broken_off)
  products_post s r (some body) =
      let id = codes "ewp-prod-" ++ three_digits s.request_count in
      answer p s r 201 (
        object
          (set_field (set_field body (codes "id") (text id)) (codes "source") (text (codes "ewp"))))

  unfoldable pub orders_post : Ewp p → Incoming → Option Fields → Ewp p × Reply
  orders_post s r none = (s, broken_off)
  orders_post s r (some body) =
      let id = codes "ewp-ord-" ++ three_digits s.request_count in
      answer p s r 202 (
        object (
          set_field
            (set_field (set_field body (codes "orderId") (text id)) (codes "status")
              (text (codes "accepted")))
            (codes "source") (text (codes "ewp"))))

  -- The two counters with which the API's handlers begin.
  unfoldable pub counted : Ewp p → Incoming → Ewp p
  counted s r = count_mirrored p (count_request p s) r

  unfoldable pub products_handler : Ewp p → Incoming → Ewp p × Reply
  products_handler s r =
      if equal r.method (codes "GET")
      then answer p (counted s r) r 200 (
          object (
            field (codes "products") (array products) (
              field (codes "total") (number 3)
                (field (codes "source") (text (codes "ewp")) no_fields))))
      else if equal r.method (codes "POST")
      then products_post (counted s r) r (p.decode_object r.body)
      else (counted s r, refused 405 (codes "method not allowed"))

  unfoldable pub orders_handler : Ewp p → Incoming → Ewp p × Reply
  orders_handler s r =
      if equal r.method (codes "GET")
      then answer p (counted s r) r 200 (
          object (
            field (codes "orders") (array orders)
              (field (codes "source") (text (codes "ewp")) no_fields)))
      else if equal r.method (codes "POST")
      then orders_post (counted s r) r (p.decode_object r.body)
      else (counted s r, refused 405 (codes "method not allowed"))

  -- A path shorter than the pattern would make the slice panic.
  unfoldable pub users_handler : Ewp p → Incoming → Ewp p × Reply
  users_handler s r =
      if ltb (length r.path) (length users_prefix)
      then (counted s r, broken_off)
      else answer p (counted s r) r 200
          (user (or_unknown (drop (length users_prefix) r.path)) r.now)

  unfoldable pub success_rate : Ewp p → p.Float
  success_rate s =
      if ltb 0 s.mirrored_count
      then p.mul (p.div (p.of_int s.success_count) (p.of_int s.mirrored_count)) (p.of_int 100)
      else p.of_int 0

  unfoldable pub metrics_handler : Ewp p → Ewp p × Reply
  metrics_handler s = (
    s,
    answered 200 (
        object (
          field (codes "total_requests") (number s.request_count) (
            field (codes "mirrored_requests") (number s.mirrored_count) (
              field (codes "success_count") (number s.success_count) (
                field (codes "success_rate_pct") (text (p.percent (success_rate s)))
                  (field (codes "service") (text (codes "ewp-sim")) no_fields)))))),
  )

  abbrev config_note : Bytes
  config_note =
      codes "PUT /config with {\"ready_threshold_pct\": <0-100>} to update without restart"

  -- The update, with what the body decodes to. (The message that follows "bad JSON: " is the library's.)
  unfoldable pub set_threshold : Ewp p → Option p.Float → Ewp p × Reply
  set_threshold s none = (s, refused 400 (codes "bad JSON: "))
  set_threshold s (some t) =
      if not (p.le (p.of_int 0) t) || not (p.le t (p.of_int 100))
      then (s, refused 400 (codes "ready_threshold_pct must be between 0 and 100"))
      else (
        record s { ready_thresh_pct = t },
        answered 200 (
            object (
              field (codes "ready_threshold_pct") (literal (p.shown t))
                (field (codes "status") (text (codes "updated")) no_fields))),
      )

  unfoldable pub config_handler : Ewp p → Incoming → Ewp p × Reply
  config_handler s r =
      if equal r.method (codes "GET")
      then (
        s,
        answered 200 (
            object (
              field (codes "ready_threshold_pct") (literal (p.shown s.ready_thresh_pct))
                (field (codes "note") (text config_note) no_fields))),
      )
      else if equal r.method (codes "PUT") || equal r.method (codes "POST")
      then set_threshold s (p.decode_threshold r.body)
      else (s, refused 405 (codes "use GET or PUT"))

  unfoldable pub echo_handler : Ewp p → Incoming → Ewp p × Reply
  echo_handler s r = answer p (count_mirrored p s r) r 200 (
      object (
        field (codes "message") (text (codes "request received by EWP simulator")) (
          field (codes "method") (text r.method) (
            field (codes "path") (text r.path) (
              field (codes "headers") (object (first_values r.headers)) (
                field (codes "source") (text (codes "ewp"))
                  (field (codes "is_mirror") (boolean (is_mirrored r)) no_fields)))))))

  -- The handler that main registers for a pattern.
  unfoldable pub handle : Bytes → Ewp p → Incoming → Ewp p × Reply
  handle pattern s r =
      if equal pattern (codes "/health")
      then health_handler s r
      else if equal pattern (codes "/api/v1/products")
      then products_handler s r
      else if equal pattern (codes "/api/v1/orders")
      then orders_handler s r
      else if equal pattern users_prefix
      then users_handler s r
      else if equal pattern (codes "/metrics")
      then metrics_handler s
      else if equal pattern (codes "/validation-report")
      then (s, reported)
      else if equal pattern (codes "/config")
      then config_handler s r
      else echo_handler s r

  unfoldable pub dispatch : Option Bytes → Ewp p → Incoming → Ewp p × Reply
  dispatch none s r = (s, redirected)
  dispatch (some pattern) s r = handle pattern s r

  -- One request, by way of the mux.
  unfoldable pub serve : Ewp p → Incoming → Ewp p × Reply
  serve s r = dispatch (p.pattern_for patterns r.path) s r

  unfoldable pub serve_all : Ewp p → List Incoming → Ewp p
  serve_all s [] = s
  serve_all s (r ∷ rs) = serve_all (serve s r).0 rs
