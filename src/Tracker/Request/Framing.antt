-- ===== src/Tracker/Request/Framing.antt =====
-- Requests read back: whole, in part, and in front of other bytes.
use mirror_agent.Base.{
  ℕ, ◌+◌, ◌-◌, ◌≤◌, ◌<◌, [], ◌∷◌, ◌++◌, ◌≡◌, ◌≢◌, refl, sym, ap, ◌∙◌, arith, Bytes, length, take,
  drop, length-append, take-length-append, drop-drop, drop-length-append, pos, int_limit, add_int,
}
use mirror_agent.Go.Header.{Header}
use mirror_agent.Go.Strings.{split}
use mirror_agent.Go.Panic.{Run, returned}
use mirror_agent.Tracker.Request.{
  CapturedRequest, Parsed, incomplete, complete, crlf, add_lines, content_length, max_alloc,
  copy_body, with_body, read_body, read_parts, read_lines, parse_at, parse_one_request,
}
use mirror_agent.Tracker.Request.Stable.{parse_one_request-append}
use mirror_agent.Tracker.Request.Complete.{complete_bounds}
use mirror_agent.Tracker.Request.Written.{
  Written, IsWritten, request_line, request_line_plain, head, render, index-joined, split-head,
  split_n-request_line,
}

-- What the agent captures of a written request.
abbrev pub captured : Written → CapturedRequest
captured w = record {
  method = w.method;
  path = w.path;
  headers = add_lines [] w.lines;
  body = w.body;
  src_ip = [];
}

take-all : (s : Bytes) → take (length s) s ≡ s
take-all [] = refl
take-all (c ∷ s) = ap (λ t. c ∷ t) (take-all s)

copied :
    (buf : Bytes) (start n : ℕ) (m p : Bytes) (h : Header) (body : Bytes)
    → n ≤ max_alloc
    → start + n ≡ length buf
    → take n (drop start buf) ≡ body
    → with_body m p h (copy_body buf start (pos n) (pos (start + n)))
      ≡ returned (
          complete
            (record { method = m; path = p; headers = h; body = body; src_ip = [] })
            (length buf))
unfolding copy_body
copied buf start n m p h body small e b =
    let d : start + n - start ≡ n = omega arith in ground (arith, d)

-- Where the body is there, as long as the headers say, the request is complete with it.
read_body_whole :
    (buf : Bytes) (start n : ℕ) (m p : Bytes) (h : Header) (body : Bytes)
    → content_length h ≡ pos n
    → n ≤ max_alloc
    → start + n ≡ length buf
    → length buf < int_limit
    → take n (drop start buf) ≡ body
    → read_body buf start m p h
      ≡ returned (
          complete
            (record { method = m; path = p; headers = h; body = body; src_ip = [] })
            (length buf))
unfolding read_body add_int
read_body_whole buf start n m p h body cl small e fits b =
    ground (arith, copied buf start n m p h body small e b)

module _ (w : Written) (v : IsWritten w) where
  length-render : length (head w) + 4 + length w.body ≡ length (render w)
  length-render = omega (arith, length-append (head w) (13 ∷ 10 ∷ 13 ∷ 10 ∷ w.body))

  body_behind : take (length w.body) (drop (length (head w) + 4) (render w)) ≡ w.body
  body_behind =
      ap (take (length w.body)) (
        sym (drop-drop (length (head w)) 4 (render w))
        ∙ ap (drop 4) (drop-length-append (head w) (13 ∷ 10 ∷ 13 ∷ 10 ∷ w.body)))
      ∙ take-all w.body

  read_lines-render :
      read_lines (render w) (length (head w) + 4) (request_line w ∷ w.lines)
      ≡ returned (complete (captured w) (length (render w)))
  unfolding read_lines
  read_lines-render =
      rw (split_n-request_line w v.plain, read_parts)
        (read_body_whole (render w) (length (head w) + 4) (length w.body) w.method w.path
          (add_lines [] w.lines) w.body v.declared v.allocable length-render v.fits body_behind)

  parse-render : parse_one_request (render w) ≡ returned (complete (captured w) (length (render w)))
  unfolding parse_one_request parse_at
  parse-render =
      rw (index-joined (request_line w) w.lines w.body (request_line_plain w v.plain) v.lines_plain)
        (ap (λ z. read_lines (render w) (length (head w) + 4) (split z crlf))
            (take-length-append (head w) (13 ∷ 10 ∷ 13 ∷ 10 ∷ w.body))
          ∙ ap (read_lines (render w) (length (head w) + 4)) (split-head w v.plain)
          ∙ read_lines-render)

  -- A written request is read back with its method, path, header lines and body, whatever follows
  -- it, and exactly its own bytes are consumed.
  pub parse_one_request-render :
      (rest : Bytes)
      → parse_one_request (render w ++ rest) ≡ returned (complete (captured w) (length (render w)))
  parse_one_request-render rest =
      parse_one_request-append (render w) rest (rw parse-render (λ q. cc)) ∙ parse-render

  whole_or_more :
      (part missing : Bytes) (o : Run Parsed)
      → part ++ missing ≡ render w
      → missing ≢ []
      → parse_one_request part ≡ o
      → o ≢ returned incomplete
      → ⊥
  whole_or_more part missing o e ne q answered =
      let same : o ≡ returned (complete (captured w) (length (render w))) =
        sym q
        ∙ sym (parse_one_request-append part missing (rw q answered))
        ∙ ap parse_one_request e
        ∙ parse-render in
      let (_, within) = complete_bounds part (captured w) (length (render w)) (q ∙ same) in
      missing_ne part missing e ne within
    where
      missing_ne :
          (part missing : Bytes)
          → part ++ missing ≡ render w
          → missing ≢ []
          → length (render w) ≤ length part
          → ⊥
      missing_ne part [] e ne h = ne refl
      missing_ne part (c ∷ missing) e ne h =
          absurd (omega (arith, length-append part (c ∷ missing), ap (length {0}) e))

  -- While bytes of a written request are missing, it is "incomplete": no request, error or panic is
  -- reported early.
  pub parse_one_request-part :
      (part missing : Bytes)
      → part ++ missing ≡ render w
      → missing ≢ []
      → parse_one_request part ≡ returned incomplete
  parse_one_request-part part missing e ne = go (parse_one_request part) refl
    where
      go :
          (o : Run Parsed)
          → parse_one_request part ≡ o
          → parse_one_request part ≡ returned incomplete
      go (returned incomplete) q = q
      go o q = absurd (whole_or_more part missing o e ne q (λ z. cc))
