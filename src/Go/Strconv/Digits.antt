-- ===== src/Go/Strconv/Digits.antt =====
-- A printed number is read back, whatever stands behind it.
use mirror_agent.Base.{
  ℕ, zero, suc, ◌+◌, ◌-◌, ◌*◌, ◌/◌, ◌%◌, ◌<◌, Bool, false, ◌&&◌, [], ◌∷◌, ◌++◌, ◌≡◌, refl, ap, ◌∙◌,
  inl, inr, arith, ltb, leb, if◌then◌else◌, Bytes, Bool-cases,
}
use mirror_agent.Go.Strconv.{decimal_rounds, decimal}

abbrev pub is_digit : ℕ → Bool
is_digit c = leb b'0' c && leb c b'9'

-- The number that the digits at the front spell behind `n`, and what follows them.
unfoldable pub read_number : Bytes → ℕ → ℕ × Bytes
read_number [] n = (n, [])
read_number (c ∷ s) n =
    let rest = read_number s (n * 10 + (c - b'0')) in if is_digit c then rest else (n, c ∷ s)

read_digit :
    (d n : ℕ) (s : Bytes) → d < 10 → read_number ((b'0' + d) ∷ s) n ≡ read_number s (n * 10 + d)
unfolding read_number
read_digit d n s h = ground arith

read_number-decimal_rounds :
    (fuel n : ℕ) (out : Bytes)
    → n < fuel
    → read_number (decimal_rounds fuel n out) 0 ≡ read_number out n
unfolding decimal_rounds
read_number-decimal_rounds zero n out h = absurd (omega arith)
read_number-decimal_rounds (suc fuel) n out h = elim (Bool-cases (ltb n 10)) [
  | inl small ↦
      let e : 0 * 10 + n ≡ n = omega arith in
      rw small (read_digit n 0 out (ground arith) ∙ ap (read_number out) e)
  | inr large ↦
      let e : n / 10 * 10 + n % 10 ≡ n = omega arith in
      rw large (
        read_number-decimal_rounds fuel (n / 10) ((b'0' + n % 10) ∷ out) (ground arith)
        ∙ read_digit (n % 10) (n / 10) out (omega arith)
        ∙ ap (read_number out) e)
]

-- No digit stands at the front.
abbrev pub IsPlain : Bytes → Type 0
IsPlain [] = Unit
IsPlain (c ∷ s) = is_digit c ≡ false

stop_reading : (s : Bytes) (n : ℕ) → IsPlain s → read_number s n ≡ (n, s)
unfolding read_number
stop_reading [] n h = refl
stop_reading (c ∷ s) n h = rw h refl

decimal_rounds-append :
    (fuel n : ℕ) (out s : Bytes) → decimal_rounds fuel n out ++ s ≡ decimal_rounds fuel n (out ++ s)
unfolding decimal_rounds
decimal_rounds-append zero n out s = refl
decimal_rounds-append (suc fuel) n out s = elim (Bool-cases (ltb n 10)) [
  | inl small ↦ rw small refl
  | inr large ↦ rw large (decimal_rounds-append fuel (n / 10) ((b'0' + n % 10) ∷ out) s)
]

pub read_number-decimal : (n : ℕ) (s : Bytes) → IsPlain s → read_number (decimal n ++ s) 0 ≡ (n, s)
unfolding decimal
read_number-decimal n s h =
    ap (λ x. read_number x 0) (decimal_rounds-append (suc n) n [] s)
    ∙ read_number-decimal_rounds (suc n) n s (omega arith)
    ∙ stop_reading s n h
