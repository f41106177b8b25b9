-- ===== src/Go/Strconv.antt =====
-- strconv.Atoi on 64 bits, and decimal printing.
pub mod Digits
use mirror_agent.Base.{
  ℕ, zero, suc, ◌+◌, ◌-◌, ◌*◌, ◌/◌, ◌%◌, ◌&&◌, Option, none, some, [], ◌∷◌, ◌==◌, ltb, leb,
  if◌then◌else◌, Bytes, ℤ, pos, negsuc, int_limit,
}

-- The number that a run of decimal digits spells behind `n`; `none` at any other byte.
unfoldable pub digits : Bytes → ℕ → Option ℕ
digits [] n = some n
digits (c ∷ s) n =
    let rest = digits s (n * 10 + (c - b'0')) in if leb b'0' c && leb c b'9' then rest else none

-- strconv.ParseUint's value: at least one digit.
unfoldable pub unsigned : Bytes → Option ℕ
unfolding digits
unsigned [] = none
unsigned (c ∷ s) = digits (c ∷ s) 0

-- -n
abbrev pub negated : ℕ → ℤ
negated zero = pos 0
negated (suc n) = negsuc n

positive : Option ℕ → Option ℤ
positive none = none
positive (some n) = if ltb n int_limit then some (pos n) else none

negative : Option ℕ → Option ℤ
negative none = none
negative (some n) = if leb n int_limit then some (negated n) else none

-- `none` is the error, for bad syntax and for a value out of range alike.
unfoldable pub atoi : Bytes → Option ℤ
unfolding unsigned positive negative
atoi [] = none
atoi (c ∷ s) =
    if c == b'-'
    then negative (unsigned s)
    else if c == b'+'
    then positive (unsigned s)
    else positive (unsigned (c ∷ s))

unfoldable pub decimal_rounds : ℕ → ℕ → Bytes → Bytes
decimal_rounds zero n out = out
decimal_rounds (suc fuel) n out =
    let rest = decimal_rounds fuel (n / 10) ((b'0' + n % 10) ∷ out) in
    if ltb n 10 then (b'0' + n) ∷ out else rest

-- %d of a number: no number has more digits than its value and one.
unfoldable pub decimal : ℕ → Bytes
unfolding decimal_rounds
decimal n = decimal_rounds (suc n) n []
