-- ===== src/Tracker/Trace/Advance.antt =====
-- What a step of the trace does to one stream: the requests it hands on and the bytes it leaves.
use mirror_agent.Base.{
  ◌≤◌, false, List, [], ◌∷◌, ◌++◌, map, ◌≡◌, refl, sym, ap, ◌∙◌, arith, Bytes, length, drop,
  append-nil, append_assoc,
}
use mathlib.Core.Path.{ap₂}
use mathlib.Core.List.{map-append}
use mirror_agent.Event.{PktEvent}
use mirror_agent.Tracker.Request.{CapturedRequest}
use mirror_agent.Tracker.Batch.{Batch, parse_http_requests}
use mirror_agent.Tracker.Batch.Append.{leftover, parse_http_requests-append}
use mirror_agent.Tracker.Batch.Ends.{no_requests, parse_http_requests-IsDone, leftover-append}
use mirror_agent.Tracker.Streams.{StreamKey, Streams, key_eq, find}
use mirror_agent.Tracker.Streams.Laws.{key_eq_iff}
use mirror_agent.Tracker.Feed.{buffered, with_source}
use mirror_agent.Tracker.Feed.Step.{buffer}
use mirror_agent.Tracker.Trace.{Sent, tag, of_stream}

-- The payload array holds what payload_len says.
abbrev pub IsSized : PktEvent → Type 0
IsSized ev = ev.payload_len ≤ length ev.payload

-- Of stream `k`, from `m` to `m'`, when `new` bytes arrived and `reqs` were handed on.
pub record Advances (k : StreamKey) (m : Streams) (new : Bytes) (m' : Streams)
    (reqs : List CapturedRequest) : Type 0 where
  pub requests_are :
      reqs ≡ map (with_source k.src_ip) (parse_http_requests (buffer m k ++ new)).requests
  pub left : buffer m' k ≡ leftover (buffer m k ++ new)

-- No complete request waits in a buffer.
abbrev pub IsDrained : Streams → StreamKey → Type 0
IsDrained m k = (parse_http_requests (buffer m k)).requests ≡ []

pub tag_other :
    (j k : StreamKey) (rs : List CapturedRequest) → key_eq j k ≡ false → of_stream k (tag j rs) ≡ []
unfolding tag of_stream
tag_other j k [] ne = refl
tag_other j k (r ∷ rs) ne = rw ne (tag_other j k rs ne)

pub tag_same : (k : StreamKey) (rs : List CapturedRequest) → of_stream k (tag k rs) ≡ rs
unfolding tag of_stream
tag_same k [] = refl
tag_same k (r ∷ rs) = rw ((key_eq_iff k k).1 refl) (ap (λ t. r ∷ t) (tag_same k rs))

pub of_stream-append :
    (k : StreamKey) (xs ys : Sent) → of_stream k (xs ++ ys) ≡ of_stream k xs ++ of_stream k ys
unfolding of_stream
of_stream-append k [] ys = refl
of_stream-append k ((j, r) ∷ xs) ys = ground (arith, of_stream-append k xs ys)

module _ (k : StreamKey) (m m' : Streams) where
  -- A step that brings the stream nothing, and leaves its buffer alone.
  pub idle_buffer : IsDrained m k → buffer m' k ≡ buffer m k → Advances k m [] m' []
  idle_buffer drained same =
      let q = no_requests (buffer m k) drained in
      record {
        requests_are = rw (append-nil, drained);
        left = rw append-nil (same ∙ ap (λ (b : Batch). drop b.consumed (buffer m k)) (sym q));
      }

  pub idle : IsDrained m k → find m' k ≡ find m k → Advances k m [] m' []
  idle drained same = idle_buffer drained (ap buffered same)

  pub Advances-IsDrained :
      {new : Bytes} {reqs : List CapturedRequest} → Advances k m new m' reqs → IsDrained m' k
  Advances-IsDrained {new} a =
      rw a.left (
        ap (λ (b : Batch). b.requests)
          (parse_http_requests-IsDone (buffer m k ++ new)).nothing_left)

pub Advances-trans :
    (k : StreamKey) (m m' m'' : Streams) (x y : Bytes) (rs qs : List CapturedRequest)
    → Advances k m x m' rs
    → Advances k m' y m'' qs
    → Advances k m (x ++ y) m'' (rs ++ qs)
Advances-trans k m m' m'' x y rs qs a b =
    let p = buffer m k ++ x in
    record {
      requests_are =
          ap₂ ◌++◌ a.requests_are (
            b.requests_are
            ∙ ap (λ z. map (with_source k.src_ip) (parse_http_requests (z ++ y)).requests) a.left)
          ∙ sym (map-append (with_source k.src_ip) _ _)
          ∙ ap (λ (c : Batch). map (with_source k.src_ip) c.requests)
              (sym (parse_http_requests-append p y))
          ∙ ap (λ z. map (with_source k.src_ip) (parse_http_requests z).requests)
              (append_assoc (buffer m k) x y);
      left =
          b.left
          ∙ ap (λ z. leftover (z ++ y)) a.left
          ∙ sym (leftover-append p y)
          ∙ ap leftover (append_assoc (buffer m k) x y);
    }
