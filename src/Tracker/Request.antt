-- ===== src/Tracker/Request.antt =====
-- mirror-agent/tracker.go, parseOneRequest: one HTTP/1.x request from the front of a buffer.
pub mod Stable
pub mod Complete
pub mod Written
pub mod Framing
pub mod Fields
pub mod Panics
use mirror_agent.Base.{
  ℕ, ◌+◌, ◌-◌, ◌^◌, Option, none, some, List, [], ◌∷◌, if◌then◌else◌, ltb, Bytes, codes, length,
  take, drop, ℤ, pos, negsuc, add_int, lt_int,
}
use mirror_agent.Go.Strings.{equal, index, split, split_n, trim_space}
use mirror_agent.Go.Strconv.{atoi}
use mirror_agent.Go.Header.{Header, add, get}
use mirror_agent.Go.Panic.{Run, returned, panicked}

pub record CapturedRequest : Type 0 where
  pub method : Bytes
  pub path : Bytes
  pub headers : Header
  pub body : Bytes
  pub src_ip : Bytes

-- `incomplete` is (nil, 0, nil); `malformed` carries the line that the error quotes, and `empty` is
-- the other error; `complete` has the bytes consumed.
pub data Parsed : Type 0 where
  incomplete : Parsed
  empty : Parsed
  malformed : Bytes → Parsed
  complete : CapturedRequest → ℕ → Parsed

abbrev pub crlf : Bytes
crlf = 13 ∷ 10 ∷ []

abbrev pub crlf_crlf : Bytes
crlf_crlf = 13 ∷ 10 ∷ 13 ∷ 10 ∷ []

-- One round of the loop over the header lines, on where the colon is; a line with none is passed
-- over.
unfoldable pub add_at : Header → Bytes → Option ℕ → Header
add_at headers line none = headers
add_at headers line (some idx) =
    add headers (trim_space (take idx line)) (trim_space (drop (idx + 1) line))

unfoldable pub add_line : Header → Bytes → Header
unfolding add_at
add_line headers line = add_at headers line (index line (b':' ∷ []))

unfoldable pub add_lines : Header → List Bytes → Header
unfolding add_line
add_lines headers [] = headers
add_lines headers (line ∷ lines) = add_lines (add_line headers line) lines

abbrev pub or_zero : Option ℤ → ℤ
or_zero none = pos 0
or_zero (some v) = v

-- No Content-Length, or one that Atoi refuses, counts as 0.
unfoldable pub content_length : Header → ℤ
content_length headers =
    let cl = get headers (codes "Content-Length") in
    if equal cl [] then pos 0 else or_zero (atoi (trim_space cl))

-- The most bytes that a Go slice may have on 64-bit Linux: `make` panics above it.
abbrev pub max_alloc : ℕ
max_alloc = 2 ^ 48

-- data[bodyStart:totalLen] panics where totalLen has wrapped around below bodyStart.
abbrev pub slice_to : Bytes → ℕ → ℤ → Run (Bytes × ℕ)
slice_to buf start (negsuc n) = panicked
slice_to buf start (pos end) =
    if ltb end start then panicked else returned (take (end - start) (drop start buf), end)

-- make([]byte, contentLength), then the copy.
unfoldable pub copy_body : Bytes → ℕ → ℤ → ℤ → Run (Bytes × ℕ)
copy_body buf start (negsuc n) total = panicked
copy_body buf start (pos n) total = if ltb max_alloc n then panicked else slice_to buf start total

abbrev pub with_body : Bytes → Bytes → Header → Run (Bytes × ℕ) → Run Parsed
with_body method path headers panicked = panicked
with_body method path headers (returned (body, total)) = returned (
    complete (record { method = method; path = path; headers = headers; body = body; src_ip = [] })
      total)

-- From the request line and the headers on: the test on the length, the body, the result.
unfoldable pub read_body : Bytes → ℕ → Bytes → Bytes → Header → Run Parsed
unfolding copy_body
read_body buf start method path headers =
    let cl = content_length headers in
    let total = add_int start cl in
    if lt_int (length buf) total
    then returned incomplete
    else with_body method path headers (copy_body buf start cl total)

-- `parts` are those of the request line.
unfoldable pub read_parts : Bytes → ℕ → Bytes → List Bytes → List Bytes → Run Parsed
unfolding read_body add_lines
read_parts buf start line (method ∷ path ∷ _) lines =
    read_body buf start method path (add_lines [] lines)
read_parts buf start line _ lines = returned (malformed line)

unfoldable pub read_lines : Bytes → ℕ → List Bytes → Run Parsed
unfolding read_parts
read_lines buf start [] = returned empty
read_lines buf start (line ∷ lines) = read_parts buf start line (split_n line (b' ' ∷ []) 3) lines

-- `header_end` is the answer of bytes.Index, `none` for -1.
unfoldable pub parse_at : Bytes → Option ℕ → Run Parsed
unfolding read_lines
parse_at buf none = returned incomplete
parse_at buf (some header_end) = read_lines buf (header_end + 4) (split (take header_end buf) crlf)

unfoldable pub parse_one_request : Bytes → Run Parsed
unfolding parse_at
parse_one_request buf = parse_at buf (index buf crlf_crlf)
