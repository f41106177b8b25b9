-- ===== src/Go/Header/Laws.antt =====
-- A header by its values, and what keeps it a map with canonical names.
use mirror_agent.Base.{
  false, [], ◌∷◌, ◌++◌, ◌≡◌, inl, inr, refl, arith, if◌then◌else◌, Bytes, Bool-cases,
}
use mirror_agent.Go.Strings.{equal}
use mirror_agent.Go.Strings.Equal.{equal_iff}
use mirror_agent.Go.Header.{Header, values, add_key, set_key, add, canonical_key}
use mirror_agent.Go.Header.Canonical.{canonical_key-canonical_key}

pub values-add_key :
    (h : Header) (k j v : Bytes)
    → values (add_key h k v) j ≡ (if equal k j then values h j ++ (v ∷ []) else values h j)
unfolding values add_key
values-add_key [] k j v = refl
values-add_key ((i, vs) ∷ h) k j v =
    ground (arith, equal_iff i k, equal_iff i j, equal_iff k j, values-add_key h k j v)

pub values-set_key :
    (h : Header) (k j v : Bytes)
    → values (set_key h k v) j ≡ (if equal k j then v ∷ [] else values h j)
unfolding values set_key
values-set_key [] k j v = refl
values-set_key ((i, vs) ∷ h) k j v =
    ground (arith, equal_iff i k, equal_iff i j, equal_iff k j, values-set_key h k j v)

-- No entry has the name.
abbrev pub Lacks : Bytes → Header → Type 0
Lacks k [] = Unit
Lacks k ((j, vs) ∷ h) = (equal j k ≡ false) × Lacks k h

-- Every name is canonical and stands once.
abbrev pub IsHeader : Header → Type 0
IsHeader [] = Unit
IsHeader ((k, vs) ∷ h) = (canonical_key k ≡ k) × Lacks k h × IsHeader h

pub values_none : (k : Bytes) (h : Header) → Lacks k h → values h k ≡ []
unfolding values
values_none k [] l = refl
values_none k ((j, vs) ∷ h) l = ground (arith, values_none k h l.1)

Lacks-add_key :
    (i : Bytes) (h : Header) (k v : Bytes) → equal k i ≡ false → Lacks i h → Lacks i (add_key h k v)
unfolding add_key
Lacks-add_key i [] k v ne l = (ne, tt)
Lacks-add_key i ((j, vs) ∷ h) k v ne l = elim (Bool-cases (equal j k)) [
  | inl e ↦ rw e l
  | inr e ↦ rw e (l.0, Lacks-add_key i h k v ne l.1)
]

add_key-IsHeader :
    (h : Header) (k v : Bytes) → canonical_key k ≡ k → IsHeader h → IsHeader (add_key h k v)
unfolding add_key
add_key-IsHeader [] k v c w = (c, tt, tt)
add_key-IsHeader ((j, vs) ∷ h) k v c w = elim (Bool-cases (equal j k)) [
  | inl e ↦ rw e w
  | inr e ↦ rw e (
    w.0,
    Lacks-add_key j h k v (ground (arith, equal_iff j k, equal_iff k j)) w.1,
    add_key-IsHeader h k v c w.2,
  )
]

pub add-IsHeader : (h : Header) (k v : Bytes) → IsHeader h → IsHeader (add h k v)
unfolding add
add-IsHeader h k v w = add_key-IsHeader h (canonical_key k) v (canonical_key-canonical_key k) w
