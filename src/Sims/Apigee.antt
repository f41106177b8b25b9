-- ===== src/Sims/Apigee.antt =====
-- apigee-sim/main.go: the server's counter, its handlers behind the mux, and the responses that it
-- logs. One request is handled after the other.
pub mod Served
use mirror_agent.Base.{
  ℕ, ◌+◌, Option, none, some, List, [], ◌∷◌, ◌++◌, ltb, if◌then◌else◌, Bytes, codes, length, drop,
}
use mirror_agent.Go.Strings.{equal}
use mirror_agent.Sims.Http.{
  Incoming, Value, text, number, time, array, object, Fields, no_fields, field, Platform,
  three_digits, Reply, answered, refused, redirected, broken_off,
}
use mirror_agent.Sims.Payload.{users_prefix, products, orders, set_field, or_unknown, first_values}

-- What logResponse shows.
pub record Logged : Type 0 where
  pub method : Bytes
  pub path : Bytes
  pub status : ℕ
  pub latency : ℕ

-- requestCount, and the responses logged so far.
pub record Apigee : Type 0 where
  pub request_count : ℕ
  pub responses : List Logged

abbrev pub started : Apigee
started = record { request_count = 0; responses = [] }

-- The patterns that main registers.
abbrev pub patterns : List Bytes
patterns =
    codes "/health"
    ∷ codes "/api/v1/products"
    ∷ codes "/api/v1/orders"
    ∷ users_prefix
    ∷ codes "/metrics"
    ∷ codes "/"
    ∷ []

unfoldable pub count_request : Apigee → Apigee
count_request s = record s { request_count = s.request_count + 1 }

-- logResponse
unfoldable pub log_response : Apigee → Incoming → ℕ → Apigee
log_response s r status =
    let line : Logged = record {
      method = r.method;
      path = r.path;
      status = status;
      latency = r.latency;
    } in
    record s { responses = s.responses ++ (line ∷ []) }

-- writeJSON, or http.Error, and then logResponse.
unfoldable pub answer : Apigee → Incoming → ℕ → Value → Apigee × Reply
answer s r status v = (log_response s r status, answered status v)

unfoldable pub refuse : Apigee → Incoming → Apigee × Reply
refuse s r = (log_response s r 405, refused 405 (codes "method not allowed"))

unfoldable pub health_handler : Apigee → Incoming → Apigee × Reply
health_handler s r = answer s r 200 (
    object (
      field (codes "status") (text (codes "UP")) (
        field (codes "service") (text (codes "apigee-sim")) (
          field (codes "version") (text (codes "v1.0.0"))
            (field (codes "time") (time r.now) no_fields)))))

-- The answer to a GET of the products.
abbrev product_list : Value
product_list = object (
    field (codes "products") (array products)
      (field (codes "total") (number 3) (field (codes "source") (text (codes "apigee")) no_fields)))

abbrev order_list : Value
order_list = object (
    field (codes "orders") (array orders)
      (field (codes "source") (text (codes "apigee")) no_fields))

-- Assigning to a nil map panics.
unfoldable pub products_post : Apigee → Incoming → Option Fields → Apigee × Reply
products_post s r none = (s, broken_off)
products_post s r (some body) =
    let id = codes "prod-" ++ three_digits s.request_count in
    answer s r 201 (
      object (
        set_field (set_field body (codes "id") (text id)) (codes "source") (text (codes "apigee"))))

unfoldable pub orders_post : Apigee → Incoming → Option Fields → Apigee × Reply
orders_post s r none = (s, broken_off)
orders_post s r (some body) =
    let id = codes "ord-" ++ three_digits s.request_count in
    let with_id = set_field body (codes "orderId") (text id) in
    let with_status = set_field with_id (codes "status") (text (codes "accepted")) in
    answer s r 202 (object (set_field with_status (codes "source") (text (codes "apigee"))))

abbrev user : Bytes → ℕ → Value
user id now = object (
    field (codes "userId") (text id) (
      field (codes "name") (text (codes "Test User")) (
        field (codes "email") (text (codes "test@example.com")) (
          field (codes "plan") (text (codes "enterprise")) (
            field (codes "source") (text (codes "apigee"))
              (field (codes "timestamp") (time now) no_fields))))))

-- A path shorter than the pattern would make the slice panic.
unfoldable pub users_handler : Apigee → Incoming → Apigee × Reply
users_handler s r =
    if ltb (length r.path) (length users_prefix)
    then (s, broken_off)
    else answer s r 200 (user (or_unknown (drop (length users_prefix) r.path)) r.now)

unfoldable pub metrics_handler : Apigee → Apigee × Reply
metrics_handler s = (
  s,
  answered 200 (
      object (
        field (codes "total_requests") (number s.request_count)
          (field (codes "service") (text (codes "apigee-sim")) no_fields))),
)

unfoldable pub echo_handler : Apigee → Incoming → Apigee × Reply
echo_handler s r = answer s r 200 (
    object (
      field (codes "message") (text (codes "request received by APIGEE simulator")) (
        field (codes "method") (text r.method) (
          field (codes "path") (text r.path) (
            field (codes "query") (text r.query) (
              field (codes "headers") (object (first_values r.headers))
                (field (codes "source") (text (codes "apigee")) no_fields)))))))

module _ (p : Platform) where
  unfoldable pub products_handler : Apigee → Incoming → Apigee × Reply
  products_handler s r =
      if equal r.method (codes "GET")
      then answer (count_request s) r 200 product_list
      else if equal r.method (codes "POST")
      then products_post (count_request s) r (p.decode_object r.body)
      else refuse (count_request s) r

  unfoldable pub orders_handler : Apigee → Incoming → Apigee × Reply
  orders_handler s r =
      if equal r.method (codes "GET")
      then answer (count_request s) r 200 order_list
      else if equal r.method (codes "POST")
      then orders_post (count_request s) r (p.decode_object r.body)
      else refuse (count_request s) r

  -- The handler that main registers for a pattern.
  unfoldable pub handle : Bytes → Apigee → Incoming → Apigee × Reply
  handle pattern s r =
      if equal pattern (codes "/health")
      then health_handler s r
      else if equal pattern (codes "/api/v1/products")
      then products_handler s r
      else if equal pattern (codes "/api/v1/orders")
      then orders_handler s r
      else if equal pattern users_prefix
      then users_handler s r
      else if equal pattern (codes "/metrics")
      then metrics_handler s
      else echo_handler s r

  unfoldable pub dispatch : Option Bytes → Apigee → Incoming → Apigee × Reply
  dispatch none s r = (s, redirected)
  dispatch (some pattern) s r = handle pattern s r

  -- One request, by way of the mux.
  unfoldable pub serve : Apigee → Incoming → Apigee × Reply
  serve s r = dispatch (p.pattern_for patterns r.path) s r

  unfoldable pub serve_all : Apigee → List Incoming → Apigee
  serve_all s [] = s
  serve_all s (r ∷ rs) = serve_all (serve s r).0 rs
