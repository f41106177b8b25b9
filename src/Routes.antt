-- ===== src/Routes.antt =====
-- mirror-agent/routes.go: the table of routes, its loading, and the path at the EWP side.
pub mod Matching
use mirror_agent.Base.{
  ℕ, Bool, Option, none, some, List, [], ◌∷◌, ◌++◌, if◌then◌else◌, Bytes, codes, length, drop,
}
use mirror_agent.Go.Strings.{equal, has_prefix, trim_space}
use mirror_agent.Go.Json.{Json}

pub record Route : Type 0 where
  pub apigee : Bytes
  pub ewp : Bytes

-- activeRoutes: with no table every path is mirrored.
abbrev pub Table : Type 0
Table = Option (List Route)

abbrev pub to_routes : List (Bytes × Bytes) → List Route
to_routes [] = []
to_routes ((a, e) ∷ rest) = (record { apigee = a; ewp = e }) ∷ to_routes rest

-- Text that is no JSON array of routes keeps the table.
unfoldable pub load_routes : Json → Bytes → Table → Table
load_routes json raw table =
    let trimmed = trim_space raw in
    if equal trimmed [] then none else elim (json.pairs_of trimmed (codes "apigee") (codes "ewp")) [
      | none ↦ table
      | some pairs ↦ some (to_routes pairs)
    ]

-- The loop over the rules: the first whose prefix fits.
unfoldable pub resolve_in : List Route → Bytes → Option Bytes
resolve_in [] path = none
resolve_in (r ∷ rs) path =
    if has_prefix path r.apigee
    then some (r.ewp ++ drop (length r.apigee) path)
    else resolve_in rs path

-- `none` is ("", false): the request is not forwarded.
unfoldable pub resolve_route : Table → Bytes → Option Bytes
unfolding resolve_in
resolve_route none path = some path
resolve_route (some routes) path = resolve_in routes path
