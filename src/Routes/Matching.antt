-- ===== src/Routes/Matching.antt =====
-- The loop over the rules finds the first rule that fits, and nothing where none does.
use mirror_agent.Base.{
  true, false, none, some, List, [], ◌∷◌, ◌++◌, ◌≡◌, ◌≢◌, ◌↔◌, inl, inr, refl, ap, arith, Bytes,
  length, drop, All, Bool-cases, drop-length-append,
}
use mirror_agent.Go.Strings.{has_prefix}
use mirror_agent.Go.Strings.Index.{has_prefix-append}
use mirror_agent.Routes.{Route, resolve_in, resolve_route}

-- The rule does not fit the path, whatever stands behind its prefix.
abbrev pub Misses : Bytes → Route → Type 0
Misses path r = (rest : Bytes) → path ≢ r.apigee ++ rest

-- The first rule that fits has its prefix replaced: the specification of routing.
pub data Resolves (path target : Bytes) : List Route → Type 0 where
  here :
      {r : Route} {rs : List Route} (rest : Bytes)
      → path ≡ r.apigee ++ rest
      → target ≡ r.ewp ++ rest
      → Resolves path target (r ∷ rs)
  there :
      {r : Route} {rs : List Route}
      → Misses path r
      → Resolves path target rs
      → Resolves path target (r ∷ rs)

has_prefix-split : (s p : Bytes) → has_prefix s p ≡ true → s ≡ p ++ drop (length p) s
unfolding has_prefix
has_prefix-split s [] h = refl
has_prefix-split [] (c ∷ p) h = cc
has_prefix-split (d ∷ s) (c ∷ p) h = ground (arith, has_prefix-split s p)

prefix-Misses : (path : Bytes) (r : Route) → has_prefix path r.apigee ≡ false → Misses path r
prefix-Misses path r h rest e =
    cc (h, has_prefix-append r.apigee rest, ap (λ z. has_prefix z r.apigee) e)

Misses-prefix : (path : Bytes) (r : Route) → Misses path r → has_prefix path r.apigee ≡ false
Misses-prefix path r h = elim (Bool-cases (has_prefix path r.apigee)) [
  | inl yes_it ↦ absurd (h (drop (length r.apigee) path) (has_prefix-split path r.apigee yes_it))
  | inr e ↦ e
]

resolve_in-Resolves :
    (rs : List Route) (path target : Bytes)
    → resolve_in rs path ≡ some target
    → Resolves path target rs
unfolding resolve_in
resolve_in-Resolves [] path target e = cc
resolve_in-Resolves (r ∷ rs) path target e = elim (Bool-cases (has_prefix path r.apigee)) [
  | inl fits ↦
      here (drop (length r.apigee) path) (has_prefix-split path r.apigee fits) (cc (rw fits at e))
  | inr off ↦ there (prefix-Misses path r off) (resolve_in-Resolves rs path target (rw off at e))
]

Resolves-resolve_in :
    {path target : Bytes} {rs : List Route}
    → Resolves path target rs
    → resolve_in rs path ≡ some target
unfolding resolve_in
Resolves-resolve_in (here {r} {rs} rest e t) =
    rw (e, has_prefix-append r.apigee rest, drop-length-append r.apigee rest, t)
Resolves-resolve_in {path} (there {r} m h) = rw (Misses-prefix path r m) (Resolves-resolve_in h)

-- With a table, a path is forwarded to `target` exactly if the first rule whose prefix it has turns
-- that prefix into the rule's own: the rest of the path is kept, and later rules have no say.
pub resolve_route_iff :
    (rs : List Route) (path target : Bytes)
    → (resolve_route (some rs) path ≡ some target) ↔ Resolves path target rs
unfolding resolve_route
resolve_route_iff rs path target = (resolve_in-Resolves rs path target, Resolves-resolve_in)

none-Misses : (rs : List Route) (path : Bytes) → resolve_in rs path ≡ none → All (Misses path) rs
unfolding resolve_in
none-Misses [] path e = tt
none-Misses (r ∷ rs) path e = elim (Bool-cases (has_prefix path r.apigee)) [
  | inl fits ↦ cc (rw fits at e)
  | inr off ↦ (prefix-Misses path r off, none-Misses rs path (rw off at e))
]

Misses-none : (rs : List Route) (path : Bytes) → All (Misses path) rs → resolve_in rs path ≡ none
unfolding resolve_in
Misses-none [] path h = refl
Misses-none (r ∷ rs) path h = rw (Misses-prefix path r h.0) (Misses-none rs path h.1)

-- With a table, a path is not forwarded exactly if no rule's prefix is one of it.
pub resolve_route-none :
    (rs : List Route) (path : Bytes) → (resolve_route (some rs) path ≡ none) ↔ All (Misses path) rs
unfolding resolve_route
resolve_route-none rs path = (none-Misses rs path, Misses-none rs path)
