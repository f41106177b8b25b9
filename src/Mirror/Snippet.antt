-- ===== src/Mirror/Snippet.antt =====
-- The snippets of bodies in the log.
use mirror_agent.Base.{
  ℕ, ◌+◌, ◌≤◌, [], ◌∷◌, ◌++◌, arith, ltb, if◌then◌else◌, Bytes, length, take, length-append,
  length-take_of_le,
}
use mirror_agent.Go.Json.{Json}
use mirror_agent.Mirror.{compacted, ellipsis, body_snippet}

cut_length :
    (n : ℕ) (s e : Bytes) → length (if ltb n (length s) then take n s ++ e else s) ≤ n + length e
cut_length n s e = ground (arith, length-append (take n s) e, length-take_of_le n s)

-- A snippet has at most 256 bytes of the body and the three of the ellipsis, whatever the body and
-- whatever json.Compact answers.
pub length-body_snippet : (json : Json) (b : Bytes) → length (body_snippet json b) ≤ 259
unfolding body_snippet
length-body_snippet json [] = omega arith
length-body_snippet json (c ∷ b) = cut_length 256 (compacted json (c ∷ b)) ellipsis
