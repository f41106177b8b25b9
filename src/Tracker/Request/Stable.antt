-- ===== src/Tracker/Request/Stable.antt =====
-- parseOneRequest on a buffer that has grown: bytes that arrive behind an answer do not change it.
use mirror_agent.Base.{
  ℕ, ◌-◌, ◌≤◌, false, some, List, [], ◌∷◌, ◌++◌, ◌≡◌, ◌≢◌, inl, inr, refl, arith, ltb, Bytes,
  length, take, drop, ℤ, pos, negsuc, add_int, lt_int, Bool-cases, Option-cases, length-append,
  length-drop, take-append, drop-append, not_ltb,
}
use mirror_agent.Go.Strings.{index}
use mirror_agent.Go.Strings.Index.{index-bound, index-append}
use mirror_agent.Go.Header.{Header}
use mirror_agent.Go.Panic.{returned}
use mirror_agent.Tracker.Request.{
  incomplete, crlf_crlf, content_length, copy_body, read_body, read_parts, read_lines, parse_at,
  parse_one_request,
}

slice-append :
    (buf t : Bytes) (start end : ℕ)
    → start ≤ end
    → end ≤ length buf
    → take (end - start) (drop start (buf ++ t)) ≡ take (end - start) (drop start buf)
slice-append buf t start end h k =
    rw (drop-append start buf t (omega arith))
      (take-append (end - start) (drop start buf) t (omega (arith, length-drop start buf)))

lt_int-append :
    (buf t : Bytes) (v : ℤ) → lt_int (length buf) v ≡ false → lt_int (length (buf ++ t)) v ≡ false
lt_int-append buf t (pos n) h = ground (arith, length-append buf t)
lt_int-append buf t (negsuc n) h = refl

copy_body-append :
    (buf t : Bytes) (start : ℕ) (cl total : ℤ)
    → lt_int (length buf) total ≡ false
    → copy_body (buf ++ t) start cl total ≡ copy_body buf start cl total
unfolding copy_body
copy_body-append buf t start (negsuc n) total h = refl
copy_body-append buf t start (pos n) (negsuc m) h = refl
copy_body-append buf t start (pos n) (pos end) h = elim (Bool-cases (ltb end start)) [
  | inl e ↦ rw e
  | inr e ↦ rw (e, slice-append buf t start end (not_ltb end start e) (not_ltb _ _ h))
]

read_body-append :
    (buf t : Bytes) (start : ℕ) (m p : Bytes) (h : Header)
    → read_body buf start m p h ≢ returned incomplete
    → read_body (buf ++ t) start m p h ≡ read_body buf start m p h
unfolding read_body
read_body-append buf t start m p h ne =
    let cl = content_length h in
    let total = add_int start cl in
    elim (Bool-cases (lt_int (length buf) total)) [
      | inl e ↦ absurd (ne (rw e))
      | inr e ↦ rw (e, lt_int-append buf t total e, copy_body-append buf t start cl total e)
    ]

read_parts-append :
    (buf t : Bytes) (start : ℕ) (line : Bytes) (parts lines : List Bytes)
    → read_parts buf start line parts lines ≢ returned incomplete
    → read_parts (buf ++ t) start line parts lines ≡ read_parts buf start line parts lines
unfolding read_parts
read_parts-append buf t start line (m ∷ p ∷ rest) lines ne = read_body-append buf t start m p _ ne
read_parts-append buf t start line [] lines ne = refl
read_parts-append buf t start line (m ∷ []) lines ne = refl

read_lines-append :
    (buf t : Bytes) (start : ℕ) (lines : List Bytes)
    → read_lines buf start lines ≢ returned incomplete
    → read_lines (buf ++ t) start lines ≡ read_lines buf start lines
unfolding read_lines
read_lines-append buf t start [] ne = refl
read_lines-append buf t start (line ∷ lines) ne = read_parts-append buf t start line _ lines ne

parse_at-append :
    (buf t : Bytes) (i : ℕ)
    → i ≤ length buf
    → parse_at buf (some i) ≢ returned incomplete
    → parse_at (buf ++ t) (some i) ≡ parse_at buf (some i)
unfolding parse_at
parse_at-append buf t i h ne = rw (take-append i buf t h) (read_lines-append buf t _ _ ne)

-- Whatever parseOneRequest answers, but for "incomplete", it answers when more bytes follow: the
-- same request and length, the same error, or the same panic.
pub parse_one_request-append :
    (buf t : Bytes)
    → parse_one_request buf ≢ returned incomplete
    → parse_one_request (buf ++ t) ≡ parse_one_request buf
unfolding parse_one_request
parse_one_request-append buf t ne = elim (Option-cases (index buf crlf_crlf)) [
  | inl e ↦ absurd (ne (rw e))
  | inr (i, e) ↦
      rw (index-append buf crlf_crlf t i e, e)
        (parse_at-append buf t i (omega (arith, index-bound buf crlf_crlf i e)) (λ q. ne (rw e q)))
]
