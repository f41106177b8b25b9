-- ===== src/Tracker/Request/Panics.antt =====
-- Content-Length values on which make([]byte, contentLength) panics.
use mirror_agent.Base.{
  ℕ, ◌+◌, ◌≤◌, ◌<◌, [], ◌∷◌, ◌++◌, ◌≡◌, refl, ap, ◌∙◌, arith, Bytes, length, length-append,
  take-length-append, ℤ, pos, negsuc, int_limit, add_int,
}
use mirror_agent.Go.Header.{Header}
use mirror_agent.Go.Strings.{split}
use mirror_agent.Go.Panic.{panicked}
use mirror_agent.Tracker.Request.{
  crlf, add_lines, content_length, max_alloc, read_body, read_parts, read_lines, parse_at,
  parse_one_request,
}
use mirror_agent.Tracker.Request.Stable.{parse_one_request-append}
use mirror_agent.Tracker.Request.Written.{
  Written, IsPlain, request_line, request_line_plain, head, render, index-joined, split-head,
  split_n-request_line,
}

-- Negative, or so large that the sum with the length of the head leaves the range of an int.
abbrev pub IsBad : ℕ → ℤ → Type 0
IsBad start (negsuc c) = Unit {0}
IsBad start (pos c) =
    (int_limit ≤ start + c) × (max_alloc < c) × (start + c < int_limit + int_limit)

read_body_bad :
    (buf : Bytes) (start : ℕ) (m p : Bytes) (h : Header) (cl : ℤ)
    → content_length h ≡ cl
    → IsBad start cl
    → start ≤ length buf
    → read_body buf start m p h ≡ panicked
unfolding read_body add_int
read_body_bad buf start m p h (negsuc c) e bad inside = ground arith
read_body_bad buf start m p h (pos c) e bad inside = ground arith

-- A request with such a Content-Length makes the parser panic as soon as its head is complete,
-- whatever body or other bytes follow.
pub parse_one_request_panics :
    (w : Written) (rest : Bytes)
    → IsPlain w
    → IsBad (length (head w) + 4) (content_length (add_lines [] w.lines))
    → parse_one_request (render w ++ rest) ≡ panicked
parse_one_request_panics w rest v bad =
    parse_one_request-append (render w) rest (rw alone (λ q. cc)) ∙ alone
  where
    lines : read_lines (render w) (length (head w) + 4) (request_line w ∷ w.lines) ≡ panicked
    lines =
        unfold read_lines in
        rw (split_n-request_line w v, read_parts)
          (read_body_bad (render w) (length (head w) + 4) w.method w.path (add_lines [] w.lines) _
            refl bad (omega (arith, length-append (head w) (13 ∷ 10 ∷ 13 ∷ 10 ∷ w.body))))

    alone : parse_one_request (render w) ≡ panicked
    alone =
        unfold parse_one_request parse_at in
        rw (index-joined (request_line w) w.lines w.body (request_line_plain w v) v.lines_plain) (
          ap (λ z. read_lines (render w) (length (head w) + 4) (split z crlf))
            (take-length-append (head w) (13 ∷ 10 ∷ 13 ∷ 10 ∷ w.body))
          ∙ ap (read_lines (render w) (length (head w) + 4)) (split-head w v)
          ∙ lines)
