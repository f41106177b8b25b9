-- ===== src/Go/Header/Canonical.antt =====
-- A canonical name is canonical: textproto's function changes nothing the second time.
use mirror_agent.Base.{
  ℕ, ◌+◌, ◌-◌, Bool, true, not, ◌&&◌, ◌||◌, [], ◌∷◌, ◌≡◌, inl, inr, refl, sym, ap, ◌∙◌, arith, ◌==◌,
  if◌then◌else◌, Bytes, Bool-cases,
}
use mathlib.Core.Path.{ap₂}
use mirror_agent.Go.Strings.{is_upper, is_lower}
use mirror_agent.Go.Header.{is_token_byte, all_token, recase, canonical_key}

abbrev cased : Bool → ℕ → ℕ
cased upper c =
    if upper && is_lower c then c - 32 else if not upper && is_upper c then c + 32 else c

letter_token : (c : ℕ) → (is_upper c || is_lower c) ≡ true → is_token_byte c ≡ true
unfolding is_token_byte
letter_token c h = ground arith

token-cased : (upper : Bool) (c : ℕ) → is_token_byte (cased upper c) ≡ is_token_byte c
token-cased upper c = elim (Bool-cases (is_upper c || is_lower c)) [
  | inl letter ↦ letter_token (cased upper c) (ground arith) ∙ sym (letter_token c letter)
  | inr other ↦ ap is_token_byte (ground arith)
]

cased-cased : (upper : Bool) (c : ℕ) → cased upper (cased upper c) ≡ cased upper c
cased-cased upper c = ground arith

all_token-recase : (upper : Bool) (s : Bytes) → all_token (recase upper s) ≡ all_token s
unfolding all_token recase
all_token-recase upper [] = refl
all_token-recase upper (c ∷ s) =
    ap₂ ◌&&◌ (token-cased upper c) (all_token-recase (cased upper c == b'-') s)

recase-recase : (upper : Bool) (s : Bytes) → recase upper (recase upper s) ≡ recase upper s
unfolding recase
recase-recase upper [] = refl
recase-recase upper (c ∷ s) =
    let next = cased upper c == b'-' in
    ap₂ ◌∷◌ (cased-cased upper c)
      (ap (λ x. recase (x == b'-') (recase next s)) (cased-cased upper c) ∙ recase-recase next s)

pub canonical_key-canonical_key : (s : Bytes) → canonical_key (canonical_key s) ≡ canonical_key s
unfolding canonical_key
canonical_key-canonical_key s = elim (Bool-cases (all_token s)) [
  | inl e ↦ rw (e, all_token-recase true s, e) (recase-recase true s)
  | inr e ↦ rw (e, e)
]
