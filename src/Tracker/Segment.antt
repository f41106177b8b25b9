-- ===== src/Tracker/Segment.antt =====
-- mirror-agent/tracker.go, looksLikeHTTP and looksLikeContinuation: which payloads are kept.
use mirror_agent.Base.{
  ℕ, ◌+◌, ◌*◌, Bool, true, false, ◌&&◌, ◌||◌, List, [], ◌∷◌, ◌==◌, ltb, leb, if◌then◌else◌, Bytes,
  codes, length, take,
}
use mirror_agent.Go.Strings.{has_prefix}

abbrev pub methods : List Bytes
methods =
    codes "GET "
    ∷ codes "POST "
    ∷ codes "PUT "
    ∷ codes "DELETE "
    ∷ codes "PATCH "
    ∷ codes "HEAD "
    ∷ codes "OPTIONS "
    ∷ []

unfoldable pub any_prefix : List Bytes → Bytes → Bool
any_prefix [] s = false
any_prefix (m ∷ ms) s = if has_prefix s m then true else any_prefix ms s

unfoldable pub looks_like_http : Bytes → Bool
unfolding any_prefix
looks_like_http s = any_prefix methods s

abbrev pub is_printable : ℕ → Bool
is_printable b = (leb 0x20 b && ltb b 0x7f) || b == 13 || b == 10 || b == 9

unfoldable pub count_printable : Bytes → ℕ
count_printable [] = 0
count_printable (b ∷ s) = (if is_printable b then 1 else 0) + count_printable s

-- The first 64 bytes, or all of them.
abbrev pub check_len : ℕ → ℕ
check_len n = if ltb 64 n then 64 else n

unfoldable pub looks_like_continuation : Bytes → Bool
unfolding count_printable
looks_like_continuation s =
    if length s == 0
    then false
    else leb (check_len (length s) * 8) (count_printable (take (check_len (length s)) s) * 10)
