-- ===== src/Go/Strings.antt =====
-- bytes.HasPrefix, bytes.Index, strings.Split, strings.SplitN, strings.TrimSpace, strings.ToLower,
-- strings.TrimRight.
pub mod Index
pub mod Equal
use mirror_agent.Base.{
  ℕ, zero, suc, ◌+◌, ◌-◌, Bool, true, false, not, ◌&&◌, ◌||◌, Option, none, some, List, [], ◌∷◌,
  ◌++◌, ◌==◌, ltb, leb, if◌then◌else◌, Bytes, length, take, drop,
}
use mathlib.Core.List.{reverse}

-- bytes.Equal
unfoldable pub equal : Bytes → Bytes → Bool
equal [] [] = true
equal (x ∷ xs) (y ∷ ys) = x == y && equal xs ys
equal _ _ = false

unfoldable pub has_prefix : Bytes → Bytes → Bool
has_prefix s [] = true
has_prefix [] (p ∷ ps) = false
has_prefix (c ∷ s) (p ∷ ps) = c == p && has_prefix s ps

-- The position of the first occurrence; `none` is Go's -1.
unfoldable pub index : Bytes → Bytes → Option ℕ
index [] sep = if has_prefix [] sep then some 0 else none
index (c ∷ s) sep =
    let rest : Option ℕ = elim (index s sep) [ none ↦ none | some i ↦ some (suc i) ] in
    if has_prefix (c ∷ s) sep then some 0 else rest

-- At most `rounds` cuts at `sep`, from the left.
unfoldable pub split_rounds : ℕ → Bytes → Bytes → List Bytes
split_rounds zero s sep = s ∷ []
split_rounds (suc n) s sep = elim (index s sep) [
  | none ↦ s ∷ []
  | some m ↦ take m s ∷ split_rounds n (drop (m + length sep) s) sep
]

-- strings.SplitN for a positive `n`.
unfoldable pub split_n : Bytes → Bytes → ℕ → List Bytes
unfolding split_rounds
split_n s sep n = split_rounds (n - 1) s sep

-- strings.Split for a separator that is not empty: a text has no more cuts than bytes.
unfoldable pub split : Bytes → Bytes → List Bytes
unfolding split_rounds
split s sep = split_rounds (length s) s sep

-- unicode.White_Space in UTF-8, as strings.TrimSpace removes it.
abbrev pub white_space : List Bytes
white_space =
    (9 ∷ [])
    ∷ (10 ∷ [])
    ∷ (11 ∷ [])
    ∷ (12 ∷ [])
    ∷ (13 ∷ [])
    ∷ (32 ∷ [])
    ∷ (0xc2 ∷ 0x85 ∷ [])
    ∷ (0xc2 ∷ 0xa0 ∷ [])
    ∷ (0xe1 ∷ 0x9a ∷ 0x80 ∷ [])
    ∷ (0xe2 ∷ 0x80 ∷ 0x80 ∷ [])
    ∷ (0xe2 ∷ 0x80 ∷ 0x81 ∷ [])
    ∷ (0xe2 ∷ 0x80 ∷ 0x82 ∷ [])
    ∷ (0xe2 ∷ 0x80 ∷ 0x83 ∷ [])
    ∷ (0xe2 ∷ 0x80 ∷ 0x84 ∷ [])
    ∷ (0xe2 ∷ 0x80 ∷ 0x85 ∷ [])
    ∷ (0xe2 ∷ 0x80 ∷ 0x86 ∷ [])
    ∷ (0xe2 ∷ 0x80 ∷ 0x87 ∷ [])
    ∷ (0xe2 ∷ 0x80 ∷ 0x88 ∷ [])
    ∷ (0xe2 ∷ 0x80 ∷ 0x89 ∷ [])
    ∷ (0xe2 ∷ 0x80 ∷ 0x8a ∷ [])
    ∷ (0xe2 ∷ 0x80 ∷ 0xa8 ∷ [])
    ∷ (0xe2 ∷ 0x80 ∷ 0xa9 ∷ [])
    ∷ (0xe2 ∷ 0x80 ∷ 0xaf ∷ [])
    ∷ (0xe2 ∷ 0x81 ∷ 0x9f ∷ [])
    ∷ (0xe3 ∷ 0x80 ∷ 0x80 ∷ [])
    ∷ []

-- The length of the first of `spaces` in front of `s`; 0 where there is none.
unfoldable pub leading : List Bytes → Bytes → ℕ
unfolding has_prefix
leading [] s = 0
leading (w ∷ ws) s = if has_prefix s w then length w else leading ws s

-- Bytes are dropped while a space stands in front; `skip` of them belong to the space just met.
unfoldable pub trim_front : List Bytes → ℕ → Bytes → Bytes
unfolding leading
trim_front spaces skip [] = []
trim_front spaces (suc skip) (c ∷ s) = trim_front spaces skip s
trim_front spaces zero (c ∷ s) =
    let n = leading spaces (c ∷ s) in
    let rest = trim_front spaces (n - 1) s in if n == 0 then c ∷ s else rest

abbrev pub reversed : List Bytes → List Bytes
reversed [] = []
reversed (w ∷ ws) = reverse w ∷ reversed ws

unfoldable pub trim_space : Bytes → Bytes
unfolding trim_front
trim_space s = reverse (trim_front (reversed white_space) 0 (reverse (trim_front white_space 0 s)))

-- strings.TrimRight for a cutset of one ASCII byte.
unfoldable pub trim_right : Bytes → ℕ → Bytes
unfolding trim_front
trim_right s c = reverse (trim_front ((c ∷ []) ∷ []) 0 (reverse s))

abbrev pub is_upper : ℕ → Bool
is_upper c = leb b'A' c && leb c b'Z'

abbrev pub is_lower : ℕ → Bool
is_lower c = leb b'a' c && leb c b'z'

-- How many more bytes has the rune in front, if it is one of the two beyond ASCII whose lower case is
-- ASCII: the Kelvin sign (U+212A, k) and the capital I with a dot (U+0130, i).
unfoldable pub folded_more : Bytes → ℕ
unfolding has_prefix
folded_more s =
    if has_prefix s (0xe2 ∷ 0x84 ∷ 0xaa ∷ [])
    then 2
    else if has_prefix s (0xc4 ∷ 0xb0 ∷ [])
    then 1
    else 0

abbrev pub lower_head : ℕ → ℕ → ℕ
lower_head zero c = if is_upper c then c + 32 else c
lower_head (suc zero) c = b'i'
lower_head (suc (suc n)) c = b'k'

-- The first `skip` bytes belong to the rune just met.
unfoldable pub lower_from : ℕ → Bytes → Bytes
unfolding folded_more
lower_from skip [] = []
lower_from (suc skip) (c ∷ s) = lower_from skip s
lower_from zero (c ∷ s) = let more = folded_more (c ∷ s) in lower_head more c ∷ lower_from more s

-- strings.ToLower, as far as its result is ASCII: a rune beyond ASCII whose lower case is beyond ASCII
-- too is left as it is.
unfoldable pub to_lower : Bytes → Bytes
unfolding lower_from
to_lower s = lower_from 0 s
