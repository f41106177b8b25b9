-- ===== src/Sims/Apigee/Served.antt =====
-- What apigee-sim counts and logs for a request.
use mirror_agent.Base.{
  ℕ, ◌+◌, Bool, true, not, ◌||◌, Option, none, some, List, [], ◌∷◌, ◌++◌, ◌≡◌, if◌then◌else◌, Bytes,
  codes,
}
use mirror_agent.Go.Strings.{equal}
use mirror_agent.Sims.Http.{Incoming, Platform, Reply, answered, refused}
use mirror_agent.Sims.Apigee.{Logged, Apigee}

-- The line that a reply leaves in the log.
abbrev pub line_of : Incoming → Reply → List Logged
line_of r (answered n v) =
    (record { method = r.method; path = r.path; status = n; latency = r.latency }) ∷ []
line_of r (refused n m) =
    (record { method = r.method; path = r.path; status = n; latency = r.latency }) ∷ []
line_of r _ = []

-- The counter went up by `n`, and the log has the line of the reply, if it is `logged`.
pub record Serves (n : ℕ) (logged : Bool) (s : Apigee) (r : Incoming) (result : Apigee × Reply)
    : Type 0 where
  pub counts : result.0.request_count ≡ s.request_count + n
  pub logs : result.0.responses ≡ s.responses ++ (if logged then line_of r result.1 else [])

module _ (p : Platform) where
  -- Requests for the products and the orders are counted.
  abbrev pub counted_at : Option Bytes → ℕ
  counted_at none = 0
  counted_at (some k) =
      if equal k (codes "/api/v1/products") || equal k (codes "/api/v1/orders") then 1 else 0

  -- All replies are logged but those of /metrics.
  abbrev pub logged_at : Option Bytes → Bool
  logged_at none = true
  logged_at (some k) = not (equal k (codes "/metrics"))
