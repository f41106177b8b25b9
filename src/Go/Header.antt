-- ===== src/Go/Header.antt =====
-- net/http's Header: a map from canonical names to the values added, in order.
pub mod Laws
pub mod Canonical
use mirror_agent.Base.{
  ℕ, zero, suc, ◌+◌, ◌-◌, Bool, true, false, not, ◌&&◌, ◌||◌, Option, none, some, List, [], ◌∷◌,
  ◌++◌, ◌==◌, leb, if◌then◌else◌, Bytes, codes,
}
use mirror_agent.Go.Strings.{equal, is_upper, is_lower}

abbrev is_digit : ℕ → Bool
is_digit c = leb b'0' c && leb c b'9'

member : ℕ → Bytes → Bool
member c [] = false
member c (x ∷ xs) = c == x || member c xs

-- RFC 7230's tchar.
unfoldable pub is_token_byte : ℕ → Bool
unfolding member
is_token_byte c = is_upper c || is_lower c || is_digit c || member c (codes "!#$%&'*+-.^_`|~")

unfoldable pub all_token : Bytes → Bool
unfolding is_token_byte
all_token [] = true
all_token (c ∷ s) = is_token_byte c && all_token s

-- A letter goes to upper case at the start and behind a dash, to lower case elsewhere.
unfoldable pub recase : Bool → Bytes → Bytes
recase upper [] = []
recase upper (c ∷ s) =
    let c' =
      if upper && is_lower c then c - 32 else if not upper && is_upper c then c + 32 else c in
    c' ∷ recase (c' == b'-') s

-- textproto.CanonicalMIMEHeaderKey: a name with another byte than tokens have stays as it is.
unfoldable pub canonical_key : Bytes → Bytes
unfolding all_token recase
canonical_key s = if all_token s then recase true s else s

-- Each name stands once. The order of the entries is that of their first values; the program
-- reads an http.Header by name, or goes through it in an order that Go leaves open.
abbrev pub Header : Type 0
Header = List (Bytes × List Bytes)

-- The values under a name that is already canonical.
unfoldable pub values : Header → Bytes → List Bytes
unfolding equal
values [] k = []
values ((j, vs) ∷ h) k = if equal j k then vs else values h k

unfoldable pub add_key : Header → Bytes → Bytes → Header
unfolding equal
add_key [] k v = (k, v ∷ []) ∷ []
add_key ((j, vs) ∷ h) k v = if equal j k then (j, vs ++ (v ∷ [])) ∷ h else (j, vs) ∷ add_key h k v

unfoldable pub set_key : Header → Bytes → Bytes → Header
unfolding equal
set_key [] k v = (k, v ∷ []) ∷ []
set_key ((j, vs) ∷ h) k v = if equal j k then (j, v ∷ []) ∷ h else (j, vs) ∷ set_key h k v

unfoldable pub add : Header → Bytes → Bytes → Header
unfolding add_key canonical_key
add h k v = add_key h (canonical_key k) v

unfoldable pub set : Header → Bytes → Bytes → Header
unfolding set_key canonical_key
set h k v = set_key h (canonical_key k) v

abbrev pub first : List Bytes → Bytes
first [] = []
first (v ∷ vs) = v

-- Header.Get: the first value, or the empty text.
unfoldable pub get : Header → Bytes → Bytes
unfolding values canonical_key
get h k = first (values h (canonical_key k))
