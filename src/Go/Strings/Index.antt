-- ===== src/Go/Strings/Index.antt =====
-- Where `index` finds its separator, and that bytes behind it change nothing.
use mirror_agent.Base.{
  ℕ, zero, suc, ◌+◌, ◌≤◌, true, none, some, [], ◌∷◌, ◌++◌, ◌≡◌, ◌≢◌, refl, arith, Bytes, length,
  All,
}
use mirror_agent.Go.Strings.{has_prefix, index}

pub length-has_prefix : (s p : Bytes) → has_prefix s p ≡ true → length p ≤ length s
unfolding has_prefix
length-has_prefix s [] h = omega arith
length-has_prefix [] (p ∷ ps) h = cc
length-has_prefix (c ∷ s) (p ∷ ps) h = ground (arith, length-has_prefix s ps)

pub has_prefix-append_of_le :
    (s p t : Bytes) → length p ≤ length s → has_prefix (s ++ t) p ≡ has_prefix s p
unfolding has_prefix
has_prefix-append_of_le s [] t h = refl
has_prefix-append_of_le [] (p ∷ ps) t h = absurd (omega arith)
has_prefix-append_of_le (c ∷ s) (p ∷ ps) t h = ground (arith, has_prefix-append_of_le s ps t)

pub has_prefix-append : (p t : Bytes) → has_prefix (p ++ t) p ≡ true
unfolding has_prefix
has_prefix-append [] t = refl
has_prefix-append (c ∷ p) t = ground (arith, has_prefix-append p t)

pub index-bound : (s sep : Bytes) (i : ℕ) → index s sep ≡ some i → i + length sep ≤ length s
unfolding index
index-bound [] sep i h = ground (arith, length-has_prefix [] sep)
index-bound (c ∷ s) sep zero h = ground (arith, length-has_prefix (c ∷ s) sep)
index-bound (c ∷ s) sep (suc i) h = ground (arith, index-bound s sep i)

-- A separator once found is found at the same place when more bytes arrive.
pub index-append : (s sep t : Bytes) (i : ℕ) → index s sep ≡ some i → index (s ++ t) sep ≡ some i
unfolding index has_prefix
index-append [] [] [] i h = h
index-append [] [] (d ∷ t) i h = h
index-append [] (p ∷ ps) t i h = cc
index-append (c ∷ s) sep t zero h =
    ground (arith, has_prefix-append_of_le (c ∷ s) sep t, length-has_prefix (c ∷ s) sep)
index-append (c ∷ s) sep t (suc i) h =
    ground
      (arith, has_prefix-append_of_le (c ∷ s) sep t, index-bound s sep i, index-append s sep t i)

-- The first byte of a separator does not occur in front of it.
pub index-skip :
    (l : Bytes) (p : ℕ) (ps rest : Bytes)
    → All (λ c. c ≢ p) l
    → index (l ++ (p ∷ (ps ++ rest))) (p ∷ ps) ≡ some (length l)
unfolding index has_prefix
index-skip [] p ps rest h = ground (arith, has_prefix-append ps rest)
index-skip (c ∷ l) p ps rest h = ground (arith, index-skip l p ps rest)

pub index-none : (l : Bytes) (p : ℕ) (ps : Bytes) → All (λ c. c ≢ p) l → index l (p ∷ ps) ≡ none
unfolding index has_prefix
index-none [] p ps h = refl
index-none (c ∷ l) p ps h = ground (arith, index-none l p ps)
