-- ===== src/Tracker/Batch.antt =====
-- mirror-agent/tracker.go, parseHTTPRequests and truncate: all the complete requests of a buffer.
pub mod Loop
pub mod Append
pub mod Ends
pub mod Pipeline
use mirror_agent.Base.{
  ℕ, zero, suc, ◌+◌, List, [], ◌∷◌, ◌≡◌, refl, leb, if◌then◌else◌, Bytes, length, take, drop,
}
use mirror_agent.Go.Panic.{Run, returned, panicked}
use mirror_agent.Tracker.Request.{
  CapturedRequest, Parsed, incomplete, empty, malformed, complete, parse_one_request,
}

-- Why the loop ended: more bytes are needed, the buffer is malformed, or parseOneRequest panicked.
-- `exhausted` is the end of the model's fuel, which is never met.
pub data Stop : Type 0 where
  starved failed crashed exhausted : Stop

pub record Batch : Type 0 where
  pub requests : List CapturedRequest
  pub consumed : ℕ
  pub stop : Stop

abbrev pub stopped : Stop → Batch
stopped why = record { requests = []; consumed = 0; stop = why }

-- One more round in front of the rest of the loop.
abbrev pub prepend : CapturedRequest → ℕ → Batch → Batch
prepend r n b = record { requests = r ∷ b.requests; consumed = n + b.consumed; stop = b.stop }

-- One round on what is left of the buffer; `rest n` goes on behind `n` bytes. The test `n == 0` is
-- the case `incomplete`: a complete request has bytes.
unfoldable pub round : Run Parsed → (ℕ → Batch) → Batch
round panicked rest = stopped crashed
round (returned incomplete) rest = stopped starved
round (returned empty) rest = stopped failed
round (returned (malformed line)) rest = stopped failed
round (returned (complete r n)) rest = prepend r n (rest n)

unfoldable pub parse_rounds : ℕ → Bytes → Batch
unfolding round
parse_rounds zero buf = stopped exhausted
parse_rounds (suc fuel) buf = round (parse_one_request buf) (λ n. parse_rounds fuel (drop n buf))

-- A round consumes a byte at least, so no buffer has more rounds than bytes and one.
unfoldable pub parse_http_requests : Bytes → Batch
unfolding parse_rounds
parse_http_requests buf = parse_rounds (suc (length buf)) buf

-- What the error log shows of the buffer.
unfoldable pub truncate : Bytes → ℕ → Bytes
truncate b n = if leb (length b) n then b else take n b
