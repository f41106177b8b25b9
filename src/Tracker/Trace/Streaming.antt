-- ===== src/Tracker/Trace/Streaming.antt =====
-- However a stream's bytes are cut into segments, and whatever other streams' segments come between,
-- the requests handed on are those of its bytes read at once.
use mirror_agent.Base.{
  ℕ, true, false, not, ◌&&◌, List, [], ◌∷◌, ◌++◌, ◌≡◌, ◌≢◌, inl, inr, refl, sym, ap, ◌∙◌, arith,
  ◌==◌, Bytes, take, Bool-cases, All, append_assoc, ltb-false,
}
use mirror_agent.Go.Panic.{Run, returned}
use mirror_agent.Event.{PktEvent}
use mirror_agent.Tracker.Request.{CapturedRequest}
use mirror_agent.Tracker.Batch.{Batch, crashed, parse_http_requests}
use mirror_agent.Tracker.Batch.Append.{parse_http_requests-append}
use mirror_agent.Tracker.Batch.Ends.{crashed-append}
use mirror_agent.Tracker.Streams.{StreamKey, Streams, key_eq}
use mirror_agent.Tracker.Streams.Laws.{key_eq_iff}
use mirror_agent.Tracker.Feed.{
  Tracker, key_of, feed, payload_of, feed_segment, is_kept, received, dropped,
}
use mirror_agent.Tracker.Feed.Step.{buffer, Delivers, feed_segment-Delivers}
use mirror_agent.Tracker.Trace.{
  Sends, after, Arrival, Sent, tag, feed_all, of_stream, contribution, history,
}
use mirror_agent.Tracker.Trace.Advance.{
  IsSized, Advances, IsDrained, tag_other, tag_same, of_stream-append, idle, Advances-IsDrained,
  Advances-trans,
}

module _ (k : StreamKey) (ev : PktEvent) where
  contribution_dropped :
      (not (ev.payload_len == 0) && is_kept (take ev.payload_len ev.payload)) ≡ false
      → contribution k ev ≡ []
  unfolding contribution
  contribution_dropped h = ground arith

  contribution_other : key_eq (key_of ev) k ≡ false → contribution k ev ≡ []
  unfolding contribution
  contribution_other h = ground arith

  contribution_own :
      key_eq (key_of ev) k ≡ true
      → (ev.payload_len == 0) ≡ false
      → is_kept (take ev.payload_len ev.payload) ≡ true
      → contribution k ev ≡ take ev.payload_len ev.payload
  unfolding contribution
  contribution_own h z kept = ground arith

-- Feed returns on the event, and every stream advances by what the event brings it.
abbrev pub Advanced : Tracker → PktEvent → Run (Tracker × List CapturedRequest) → Type 0
Advanced t ev o =
    (u : Tracker) × (reqs : List CapturedRequest) × (o ≡ returned (u, reqs))
    × ((k : StreamKey)
        → Advances k t.streams (contribution k ev) u.streams (of_stream k (tag (key_of ev) reqs)))

module _ (t : Tracker) (now : ℕ) (ev : PktEvent)
    (drained : (k : StreamKey) → IsDrained t.streams k) where
  unchanged :
      (k : StreamKey)
      → contribution k ev ≡ []
      → Advances k t.streams (contribution k ev) t.streams []
  unchanged k e = rw e (idle k t.streams t.streams (drained k) refl)

  delivered :
      (u : Tracker) (reqs : List CapturedRequest)
      → (ev.payload_len == 0) ≡ false
      → is_kept (take ev.payload_len ev.payload) ≡ true
      → Delivers t.streams
          (key_of ev)
          (buffer t.streams (key_of ev) ++ take ev.payload_len ev.payload)
          u
          reqs
      → (k : StreamKey)
      → Advances k t.streams (contribution k ev) u.streams (of_stream k (tag (key_of ev) reqs))
  delivered u reqs z kept d k = elim (Bool-cases (key_eq (key_of ev) k)) [
    | inl same ↦
        let e : key_of ev ≡ k = (key_eq_iff (key_of ev) k).0 same in
        rw (contribution_own k ev same z kept)
          (rw (← e) (rw tag_same (record { requests_are = d.requests_are; left = d.leaves.own })))
    | inr ne ↦
        rw (contribution_other k ev ne, tag_other (key_of ev) k reqs ne)
          (idle k t.streams u.streams (drained k) (d.leaves.others k ne))
  ]

  pub feed-Advanced :
      IsSized ev
      → (parse_http_requests (buffer t.streams (key_of ev) ++ contribution (key_of ev) ev)).stop
        ≢ crashed
      → Advanced t ev (feed t now ev)
  unfolding feed tag of_stream
  feed-Advanced sized safe = elim (Bool-cases (ev.payload_len == 0)) [
    | inl z ↦ (received t, [], rw z, λ k. unchanged k (contribution_dropped k ev (rw z)))
    | inr z ↦ elim (Bool-cases (is_kept (take ev.payload_len ev.payload))) [
      | inl kept ↦
          let own = contribution_own (key_of ev) ev ((key_eq_iff _ _).1 refl) z kept in
          let (u, reqs, e, d) =
            feed_segment-Delivers (received t) now (key_of ev) (take ev.payload_len ev.payload) kept
              (rw own at safe) in
          (u, reqs, rw (z, payload_of, ltb-false _ _ sized) e, delivered u reqs z kept d)
      | inr e ↦ (
        dropped (received t),
        [],
        rw (z, payload_of, ltb-false _ _ sized, feed_segment, e) refl,
        λ k. unchanged k (contribution_dropped k ev (rw (z, e))),
      )
    ]
  ]

abbrev pub AllSized : List Arrival → Type 0
AllSized = All (λ a. IsSized a.event)

-- A panic on what a step left is one on all the bytes.
pub stop_behind :
    (k : StreamKey) (m m' : Streams) {x : Bytes} {reqs : List CapturedRequest} (y : Bytes)
    → Advances k m x m' reqs
    → (parse_http_requests (buffer m' k ++ y)).stop ≡ crashed
    → (parse_http_requests (buffer m k ++ (x ++ y))).stop ≡ crashed
stop_behind k m m' {x} y a q = rw (← append_assoc (buffer m k) x y) (
    ap (λ (b : Batch). b.stop) (parse_http_requests-append (buffer m k ++ x) y)
    ∙ ap (λ z. (parse_http_requests (z ++ y)).stop) (sym a.left)
    ∙ q)

-- From drained buffers, on events whose payload arrays hold what they announce and none of whose
-- streams makes the parser panic: Feed after Feed returns, whatever the Sends count; the requests handed on for a stream are
-- those that parseHTTPRequests finds in the stream's bytes (what was buffered and what its kept
-- segments brought) at once, in order and marked with the client's address; and what those bytes
-- leave over is what stays buffered.
pub feed_all-Advances :
    (sends : Sends) (arrivals : List Arrival) (t : Tracker)
    → AllSized arrivals
    → ((k : StreamKey) → IsDrained t.streams k)
    → ((k : StreamKey)
        → (parse_http_requests (buffer t.streams k ++ history k arrivals)).stop ≢ crashed)
    → (u : Tracker) × (sent : Sent) × (feed_all sends t arrivals ≡ returned (u, sent))
      × ((k : StreamKey) → Advances k t.streams (history k arrivals) u.streams (of_stream k sent))
unfolding feed_all history of_stream
feed_all-Advances sends [] t sized drained safe =
    (t, [], refl, λ k. idle k t.streams t.streams (drained k) refl)
feed_all-Advances sends (a ∷ rest) t sized drained safe =
    let key = key_of a.event in
    let early : (k : StreamKey)
        → (parse_http_requests (buffer t.streams k ++ contribution k a.event)).stop ≢ crashed =
      λ k q. safe k (
        rw (← append_assoc (buffer t.streams k) (contribution k a.event) (history k rest))
          (crashed-append (buffer t.streams k ++ contribution k a.event) (history k rest) q)) in
    let (u, reqs, e, first) = feed-Advanced t a.now a.event drained sized.0 (early key) in
    let (v, sent, f, later) =
      feed_all-Advances sends rest (after sends u reqs) sized.1
        (λ k. Advances-IsDrained k t.streams u.streams (first k))
        λ k q. safe k (stop_behind k t.streams u.streams (history k rest) (first k) q) in
    (
      v,
      tag key reqs ++ sent,
      rw (e, f),
      λ k. rw (of_stream-append k (tag key reqs) sent) (
          Advances-trans k t.streams u.streams v.streams (contribution k a.event) (history k rest) _
            _ (first k) (later k)),
    )
