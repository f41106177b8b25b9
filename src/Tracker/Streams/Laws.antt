-- ===== src/Tracker/Streams/Laws.antt =====
-- The map of streams by its lookups.
use mirror_agent.Base.{true, none, some, [], ◌∷◌, ◌≡◌, ◌↔◌, refl, arith, if◌then◌else◌}
use mirror_agent.Tracker.Streams.{StreamKey, Stream, Streams, key_eq, find, put, delete}

pub key_eq_iff : (a b : StreamKey) → (key_eq a b ≡ true) ↔ (a ≡ b)
unfolding key_eq
key_eq_iff a b = ground arith

pub find-put :
    (m : Streams) (k j : StreamKey) (s : Stream)
    → find (put m k s) j ≡ (if key_eq k j then some s else find m j)
unfolding find put
find-put [] k j s = refl
find-put ((i, r) ∷ m) k j s =
    ground (arith, key_eq_iff k j, key_eq_iff i k, key_eq_iff i j, find-put m k j s)

pub find-delete :
    (m : Streams) (k j : StreamKey) → find (delete m k) j ≡ (if key_eq k j then none else find m j)
unfolding find delete
find-delete [] k j = ground arith
find-delete ((i, r) ∷ m) k j =
    ground (arith, key_eq_iff k j, key_eq_iff i k, key_eq_iff i j, find-delete m k j)
