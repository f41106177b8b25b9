-- ===== src/Go/Dict.antt =====
-- A Go map with string keys.
use mirror_agent.Base.{Option, none, some, List, [], ◌∷◌, ◌≡◌, arith, if◌then◌else◌, Bytes}
use mirror_agent.Go.Strings.{equal}
use mirror_agent.Go.Strings.Equal.{equal_iff}

-- Each key stands once. Go leaves the order of a map open; what is stated of a map is stated by key.
abbrev pub Dict : Type 0 → Type 0
Dict A = List (Bytes × A)

module _ {A : Type 0} where
  -- m[k], `none` where it is missing.
  unfoldable pub lookup : Dict A → Bytes → Option A
  unfolding equal
  lookup [] k = none
  lookup ((j, a) ∷ m) k = if equal j k then some a else lookup m k

  -- m[k] = a
  unfoldable pub store : Dict A → Bytes → A → Dict A
  unfolding equal
  store [] k a = (k, a) ∷ []
  store ((j, b) ∷ m) k a = if equal j k then (j, a) ∷ m else (j, b) ∷ store m k a

  pub lookup-store :
      (m : Dict A) (k j : Bytes) (a : A)
      → lookup (store m k a) j ≡ (if equal k j then some a else lookup m j)
  unfolding lookup store
  lookup-store [] k j a = ground arith
  lookup-store ((i, b) ∷ m) k j a =
      ground (arith, lookup-store m k j a, equal_iff i k, equal_iff i j, equal_iff k j)
