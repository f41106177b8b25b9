-- ===== src/Tracker/Request/Complete.antt =====
-- What a complete request says of the buffer that it came from.
use mirror_agent.Base.{
  ℕ, ◌+◌, ◌-◌, ◌≤◌, false, some, List, [], ◌∷◌, ◌≡◌, inl, inr, refl, arith, Bytes, length, take,
  drop, ℤ, pos, negsuc, add_int, lt_int, Bool-cases, Option-cases,
}
use mirror_agent.Go.Strings.{index, split}
use mirror_agent.Go.Panic.{returned}
use mirror_agent.Tracker.Request.{
  CapturedRequest, complete, crlf, crlf_crlf, add_lines, content_length, copy_body, with_body,
  read_body, read_parts, read_lines, parse_one_request,
}

-- The request of `n` bytes with its body behind the first `start`, as long as its headers say.
pub record IsFramed (buf : Bytes) (start : ℕ) (r : CapturedRequest) (n : ℕ) : Type 0 where
  pub lines : List Bytes
  pub headers_are : r.headers ≡ add_lines [] lines
  pub after_head : start ≤ n
  pub within : n ≤ length buf
  pub declared : content_length r.headers ≡ pos (n - start)
  pub body_is : r.body ≡ take (n - start) (drop start buf)
  pub no_source : r.src_ip ≡ []

module _ (buf : Bytes) (start : ℕ) (r : CapturedRequest) (n : ℕ) where
  copied :
      (m p : Bytes) (lines : List Bytes) (cl : ℤ)
      → content_length (add_lines [] lines) ≡ cl
      → lt_int (length buf) (add_int start cl) ≡ false
      → with_body m p (add_lines [] lines) (copy_body buf start cl (add_int start cl))
        ≡ returned (complete r n)
      → IsFramed buf start r n
  unfolding copy_body add_int
  copied m p lines (negsuc c) e l q = cc
  copied m p lines (pos c) e l q = record {
    lines = lines;
    headers_are = ground arith;
    after_head = ground arith;
    within = ground arith;
    declared = ground arith;
    body_is = ground arith;
    no_source = ground arith;
  }

  read_body-IsFramed :
      (m p : Bytes) (lines : List Bytes)
      → read_body buf start m p (add_lines [] lines) ≡ returned (complete r n)
      → IsFramed buf start r n
  unfolding read_body
  read_body-IsFramed m p lines q =
      let cl = content_length (add_lines [] lines) in
      elim (Bool-cases (lt_int (length buf) (add_int start cl))) [
        | inl e ↦ cc (rw e at q)
        | inr e ↦ copied m p lines cl refl e (rw e at q)
      ]

  read_parts-IsFramed :
      (line : Bytes) (parts lines : List Bytes)
      → read_parts buf start line parts lines ≡ returned (complete r n)
      → IsFramed buf start r n
  unfolding read_parts
  read_parts-IsFramed line (m ∷ p ∷ rest) lines q = read_body-IsFramed m p lines q
  read_parts-IsFramed line [] lines q = cc
  read_parts-IsFramed line (m ∷ []) lines q = cc

  read_lines-IsFramed :
      (lines : List Bytes)
      → read_lines buf start lines ≡ returned (complete r n)
      → IsFramed buf start r n
  unfolding read_lines
  read_lines-IsFramed [] q = cc
  read_lines-IsFramed (line ∷ lines) q = read_parts-IsFramed line _ lines q

-- A complete request ends within the buffer, behind the first blank line; its body is what stands
-- between, and has the length that its Content-Length declares.
pub parse_one_request-IsFramed :
    (buf : Bytes) (r : CapturedRequest) (n : ℕ)
    → parse_one_request buf ≡ returned (complete r n)
    → (i : ℕ) × (index buf crlf_crlf ≡ some i) × IsFramed buf (i + 4) r n
unfolding parse_one_request
parse_one_request-IsFramed buf r n q = elim (Option-cases (index buf crlf_crlf)) [
  | inl e ↦ cc (rw e at q)
  | inr (i, e) ↦ (i, e, read_lines-IsFramed buf (i + 4) r n (split (take i buf) crlf) (rw e at q))
]

-- So at least the blank line is consumed, and no more than there is.
pub complete_bounds :
    (buf : Bytes) (r : CapturedRequest) (n : ℕ)
    → parse_one_request buf ≡ returned (complete r n)
    → (4 ≤ n) × (n ≤ length buf)
complete_bounds buf r n q =
    let (i, e, f) = parse_one_request-IsFramed buf r n q in (omega (arith, f.after_head), f.within)
