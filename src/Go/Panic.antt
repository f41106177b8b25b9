-- ===== src/Go/Panic.antt =====
-- A Go computation that returns, or that panics. Nothing in the agent recovers, so a panic ends
-- the process.
use mirror_agent.Base.{◌≡◌, refl}

pub data Run {ℓ} (A : Type ℓ) : Type ℓ where
  returned : A → Run A
  panicked : Run A

module _ {ℓ κ} {A : Type ℓ} {B : Type κ} where
  infixl 5 ◌>>=◌
  abbrev pub ◌>>=◌ : Run A → (A → Run B) → Run B
  returned a >>= f = f a
  panicked >>= f = panicked

  pub bind-eq-returned :
      (m : Run A) (f : A → Run B) {b : B}
      → (m >>= f) ≡ returned b
      → (a : A) × (m ≡ returned a) × (f a ≡ returned b)
  bind-eq-returned (returned a) f h = (a, refl, h)
  bind-eq-returned panicked f h = cc

pub returned-ne-panicked {ℓ} : {A : Type ℓ} (a : A) → ¬ (returned a ≡ panicked)
returned-ne-panicked a h = cc

pub returned-eq {ℓ} : {A : Type ℓ} {a b : A} → returned a ≡ returned b → a ≡ b
returned-eq h = cc
