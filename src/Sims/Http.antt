-- ===== src/Sims/Http.antt =====
-- The servers' requests and replies, and what they use of Go's standard library.
use mirror_agent.Base.{
  [], ◌∷◌, ◌≡◌, ◌⊎◌, ℕ, ◌-◌, Bool, not, Option, List, ◌++◌, Bytes, codes, length, replicate,
}
use mirror_agent.Go.Strings.{equal}
use mirror_agent.Go.Strconv.{decimal}
use mirror_agent.Go.Header.{Header, get}

-- *http.Request, with the time at which the handler looks at the clock and how long it has run then
-- (both in nanoseconds).
pub record Incoming : Type 0 where
  pub method : Bytes
  pub path : Bytes
  pub query : Bytes
  pub headers : Header
  pub body : Bytes
  pub now : ℕ
  pub latency : ℕ

-- What encoding/json writes: the arguments of writeJSON. A `literal` is a number in its own
-- spelling, a `time` is in nanoseconds.
mutual
  pub data Value : Type 0 where
    text : Bytes → Value
    number : ℕ → Value
    literal : Bytes → Value
    boolean : Bool → Value
    time : ℕ → Value
    array : Values → Value
    object : Fields → Value

  pub data Values : Type 0 where
    no_more : Values
    next : Value → Values → Values

  pub data Fields : Type 0 where
    no_fields : Fields
    field : Bytes → Value → Fields → Fields

-- What the parts outside the sources do. `decode_object` is what json.NewDecoder(..).Decode leaves in a
-- nil map[string]interface{} that it is given, `none` if it leaves the map nil. `decode_threshold` is
-- Decode into the struct of /config, `none` for its error. `pattern_for` is the pattern that an
-- http.ServeMux with these patterns picks for a path, `none` where it redirects the client. `Float` are
-- the float64s but NaN, with their operations, `percent` is fmt's %.1f%%, `shown` what encoding/json
-- writes.
pub record Platform : Type 1 where
  pub Float : Type 0
  pub of_int : ℕ → Float
  pub div : Float → Float → Float
  pub mul : Float → Float → Float
  pub le : Float → Float → Bool
  pub percent : Float → Bytes
  pub shown : Float → Bytes
  pub decode_object : Bytes → Option Fields
  pub decode_threshold : Bytes → Option Float
  pub pattern_for : List Bytes → Bytes → Option Bytes

-- r.Header.Get("X-Mirror-Source") != ""
unfoldable pub is_mirrored : Incoming → Bool
unfolding get equal
is_mirrored r = not (equal (get r.headers (codes "X-Mirror-Source")) (codes ""))

-- fmt's %03d.
abbrev pub three_digits : ℕ → Bytes
three_digits n = replicate (3 - length (decimal n)) b'0' ++ decimal n

-- What a client gets: writeJSON's answer, http.Error's, the mux's redirect, or a connection that is
-- closed as the handler panicked (net/http recovers, and the server goes on). `reported` is the
-- answer of /validation-report.
pub data Reply : Type 0 where
  answered : ℕ → Value → Reply
  refused : ℕ → Bytes → Reply
  redirected : Reply
  broken_off : Reply
  reported : Reply

-- The pattern is among those that are registered.
abbrev pub Registered : Bytes → List Bytes → Type 0
Registered k [] = ⊥
Registered k (pattern ∷ ps) = (k ≡ pattern) ⊎ Registered k ps
