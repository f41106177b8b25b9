-- ===== src/Go/Strings/Equal.antt =====
-- `equal` decides equality.
use mirror_agent.Base.{true, [], ◌∷◌, ◌≡◌, ◌↔◌, refl, arith, Bytes}
use mirror_agent.Go.Strings.{equal}

pub equal_iff : (a b : Bytes) → (equal a b ≡ true) ↔ (a ≡ b)
unfolding equal
equal_iff [] [] = ground arith
equal_iff [] (y ∷ b) = ground arith
equal_iff (x ∷ a) [] = ground arith
equal_iff (x ∷ a) (y ∷ b) = ground (arith, equal_iff a b)

pub equal_refl : (a : Bytes) → equal a a ≡ true
equal_refl a = (equal_iff a a).1 refl
