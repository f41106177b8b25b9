-- ===== src/Go/Json.antt =====
-- encoding/json, as far as the agent calls it: a parameter of what uses it.
use mirror_agent.Base.{Bool, Option, Bytes, List}

-- `valid` is json.Valid, `compact` json.Compact (`none` for its error), and `pairs_of` is
-- json.Unmarshal into a slice of structs with the two named string fields.
pub record Json : Type 0 where
  pub valid : Bytes → Bool
  pub compact : Bytes → Option Bytes
  pub pairs_of : Bytes → Bytes → Bytes → Option (List (Bytes × Bytes))
