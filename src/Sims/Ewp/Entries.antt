-- ===== src/Sims/Ewp/Entries.antt =====
-- Which requests ewp-sim records, and how its log is cut.
use mirror_agent.Base.{
  ℕ, ◌+◌, ◌-◌, ◌≤◌, Bool, true, false, Option, none, some, List, [], ◌∷◌, ◌++◌, ◌≡◌, refl, sym, inl,
  inr, arith, ltb, if◌then◌else◌, Bytes, codes, length, drop, Bool-cases, length-append,
  length-drop, drop-append, drop-drop,
}
use mirror_agent.Go.Strings.{equal}
use mirror_agent.Sims.Http.{Incoming, Fields, Platform, is_mirrored}
use mirror_agent.Sims.Ewp.{ValidationEntry, keep_last, entry_of, json_headers}
use mirror_agent.Sims.Payload.{users_prefix}
use mirror_agent.Sims.Ewp.Handlers.{patterns}

pub length-keep_last : (log : List ValidationEntry) → length (keep_last log) ≤ 1000
unfolding keep_last
length-keep_last log = ground (arith, length-drop (length log - 1000) log)

pub keep_last-drop : (log : List ValidationEntry) → keep_last log ≡ drop (length log - 1000) log
unfolding keep_last
keep_last-drop log = elim (Bool-cases (ltb 1000 (length log))) [
  | inl e ↦ rw e refl
  | inr e ↦ let z : length log - 1000 ≡ 0 = ground arith in rw (e, z) refl
]

pub keep_last-append :
    (log more : List ValidationEntry) → keep_last (keep_last log ++ more) ≡ keep_last (log ++ more)
keep_last-append log more =
    let cut = length log - 1000 in
    let whole = log ++ more in
    let e : drop cut log ++ more ≡ drop cut whole = sym (drop-append cut log more (omega arith)) in
    let n : cut + (length (drop cut whole) - 1000) ≡ length whole - 1000 =
      omega (arith, length-drop cut whole, length-append log more) in
    rw
      (
        keep_last-drop log,
        e,
        keep_last-drop (drop cut whole),
        drop-drop cut (length (drop cut whole) - 1000) whole,
        n,
      )
      (sym (keep_last-drop whole))

abbrev pub when : Bool → ℕ → Option ℕ
when true status = some status
when false status = none

-- The status that the handler of a POST records, with what the body decodes to.
abbrev pub posted : ℕ → Option Fields → Option ℕ
posted status none = none
posted status (some body) = some status

module _ (p : Platform) where
  -- The status with which a request is recorded, by pattern and method; `none` if it is not.
  abbrev pub api_status : ℕ → Incoming → Option ℕ
  api_status created r =
      if equal r.method (codes "GET")
      then some 200
      else if equal r.method (codes "POST")
      then posted created (p.decode_object r.body)
      else none

  abbrev pub status_at : Bytes → Incoming → Option ℕ
  status_at pattern r =
      if equal pattern (codes "/health")
      then none
      else if equal pattern (codes "/api/v1/products")
      then api_status 201 r
      else if equal pattern (codes "/api/v1/orders")
      then api_status 202 r
      else if equal pattern users_prefix
      then if ltb (length r.path) (length users_prefix) then none else some 200
      else if equal pattern (codes "/metrics")
      then none
      else if equal pattern (codes "/validation-report")
      then none
      else if equal pattern (codes "/config")
      then none
      else some 200

  abbrev pub status_for : Option Bytes → Incoming → Option ℕ
  status_for none r = none
  status_for (some pattern) r = status_at pattern r

  unfoldable pub status_of : Incoming → Option ℕ
  status_of r = status_for (p.pattern_for patterns r.path) r

  abbrev pub recorded : Bool → Option ℕ → Incoming → List ValidationEntry
  recorded true (some status) r = entry_of r status json_headers ∷ []
  recorded _ _ r = []

  -- The entries that requests make: one for each mirrored request that is recorded.
  unfoldable pub entries : List Incoming → List ValidationEntry
  unfolding status_of is_mirrored
  entries [] = []
  entries (r ∷ rs) = recorded (is_mirrored r) (status_of r) r ++ entries rs
