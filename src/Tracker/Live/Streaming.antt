-- ===== src/Tracker/Live/Streaming.antt =====
-- The requests of a stream are found however the reaper's ticks fall between its segments, as long as
-- none finds an unfinished request too old.
use mirror_agent.Base.{
  ℕ, ◌+◌, ◌≤◌, Option, none, some, List, [], ◌∷◌, ◌++◌, ◌≡◌, ◌≢◌, ◌⊎◌, refl, sym, inl, inr, arith,
  if◌then◌else◌, Bytes, Bool-cases, append_assoc,
}
use mirror_agent.Go.Panic.{Run, returned}
use mirror_agent.Tracker.Batch.{crashed, parse_http_requests}
use mirror_agent.Tracker.Batch.Ends.{crashed-append}
use mirror_agent.Go.Strings.{index, has_prefix}
use mirror_agent.Tracker.Request.{parse_one_request}
use mirror_agent.Tracker.Streams.{StreamKey, Stream, Streams, find}
use mirror_agent.Tracker.Feed.{Tracker, key_of, buffered}
use mirror_agent.Tracker.Feed.Step.{buffer}
use mirror_agent.Tracker.Trace.{Sends, Sent, after, tag, of_stream, contribution, history}
use mirror_agent.Tracker.Trace.Advance.{
  Advances, IsDrained, of_stream-append, idle, idle_buffer, Advances-IsDrained, Advances-trans,
}
use mirror_agent.Tracker.Trace.Streaming.{AllSized, feed-Advanced, stop_behind}
use mirror_agent.Tracker.Reaper.{window, is_stale, reap}
use mirror_agent.Tracker.Reaper.Laws.{IsMap, fresh-IsMap, kept, reap_lem}
use mirror_agent.Tracker.Live.{Happening, fed, ticked, arrivals_of, live, brings, IsInTime}
use mirror_agent.Tracker.Live.Stamped.{IsStamped, feed-Seen}

-- What a tick makes of a stream whose stamp is known: if it goes, nothing of it waited.
record Spares (now seen : ℕ) (before after : Option Stream) : Type 0 where
  bytes : buffered after ≡ buffered before
  stamp : IsStamped seen after

kept-Spares :
    (now seen : ℕ) (o : Option Stream)
    → IsStamped seen o
    → (buffered o ≡ []) ⊎ (now ≤ seen + window)
    → Spares now seen o (kept now o)
kept-Spares now seen none st h = record { bytes = refl; stamp = tt }
kept-Spares now seen (some s) st h = elim (Bool-cases (is_stale now s)) [
  | inr new ↦ rw new (record { bytes = refl; stamp = st })
  | inl old ↦ elim h [
    | inl nothing ↦ rw old (record { bytes = sym nothing; stamp = tt })
    | inr soon ↦ absurd (ground (arith, st, soon, old))
  ]
]

reap-Spares :
    (t : Tracker) (now seen : ℕ) (k : StreamKey)
    → IsMap t.streams
    → IsStamped seen (find t.streams k)
    → (buffer t.streams k ≡ []) ⊎ (now ≤ seen + window)
    → Spares now seen (find t.streams k) (find (reap t now).streams k)
reap-Spares t now seen k mapped st h =
    rw ((reap_lem t now mapped).0 k) (kept-Spares now seen (find t.streams k) st h)

-- A tracker for which a sequence of happenings is in time.
record IsTimely (t : Tracker) (seen : StreamKey → ℕ) (hs : List Happening) : Type 0 where
  mapped : IsMap t.streams
  drained : (k : StreamKey) → IsDrained t.streams k
  stamped : (k : StreamKey) → IsStamped (seen k) (find t.streams k)
  in_time : (k : StreamKey) → IsInTime k (seen k) (buffer t.streams k) hs

-- What happens in all is what the tracker answers, and how each stream advances.
abbrev Lives : Tracker → List Happening → Run (Tracker × Sent) → Type 0
Lives t hs o =
    (u : Tracker) × (sent : Sent) × (o ≡ returned (u, sent))
    × ((k : StreamKey)
        → Advances k t.streams (history k (arrivals_of hs)) u.streams (of_stream k sent))

live-Lives :
    (sends : Sends) (hs : List Happening) (t : Tracker) (seen : StreamKey → ℕ)
    → AllSized (arrivals_of hs)
    → ((k : StreamKey)
        → (parse_http_requests (buffer t.streams k ++ history k (arrivals_of hs))).stop ≢ crashed)
    → IsTimely t seen hs
    → Lives t hs (live sends t hs)
unfolding live history of_stream IsInTime
live-Lives sends [] t seen sized safe y =
    (t, [], refl, λ k. idle k t.streams t.streams (y.drained k) refl)
live-Lives sends (ticked now ∷ hs) t seen sized safe y =
    let t' = reap t now in
    let spared : (k : StreamKey) → Spares now (seen k) (find t.streams k) (find t'.streams k) =
      λ k. reap-Spares t now (seen k) k y.mapped (y.stamped k) (y.in_time k).0 in
    let tick : (k : StreamKey) → Advances k t.streams [] t'.streams [] =
      λ k. idle_buffer k t.streams t'.streams (y.drained k) (spared k).bytes in
    let (u, sent, run, later) =
      live-Lives sends hs t' seen sized
        (λ k q. safe k (stop_behind k t.streams t'.streams (history k (arrivals_of hs)) (tick k) q))
        (record {
          mapped = unfold reap in fresh-IsMap now t.streams y.mapped;
          drained = λ k. Advances-IsDrained k t.streams t'.streams (tick k);
          stamped = λ k. (spared k).stamp;
          in_time = λ k. rw (spared k).bytes (y.in_time k).1;
        }) in
    (
      u,
      sent,
      run,
      λ k.
          Advances-trans k t.streams t'.streams u.streams [] (history k (arrivals_of hs)) [] _
            (tick k) (later k),
    )
live-Lives sends (fed now ev ∷ hs) t seen sized safe y =
    let key = key_of ev in
    let rest : StreamKey → Bytes = λ k. history k (arrivals_of hs) in
    let early : (k : StreamKey)
        → (parse_http_requests (buffer t.streams k ++ contribution k ev)).stop ≢ crashed =
      λ k q. safe k (
        rw (← append_assoc (buffer t.streams k) (contribution k ev) (rest k))
          (crashed-append (buffer t.streams k ++ contribution k ev) (rest k) q)) in
    let (u, reqs, e, first) = feed-Advanced t now ev y.drained sized.0 (early key) in
    let s = feed-Seen t now ev y.mapped e in
    let (v, sent, f, later) =
      live-Lives sends hs (after sends u reqs) (λ k. if brings k ev then now else seen k) sized.1
        (λ k q. safe k (stop_behind k t.streams u.streams (rest k) (first k) q))
        (record {
          mapped = s.still_map;
          drained = λ k. Advances-IsDrained k t.streams u.streams (first k);
          stamped = λ k. s.stamped k (seen k) (y.stamped k);
          in_time = λ k. rw (first k).left (y.in_time k);
        }) in
    (
      v,
      tag key reqs ++ sent,
      rw (e, f),
      λ k. rw (of_stream-append k (tag key reqs) sent) (
          Advances-trans k t.streams u.streams v.streams (contribution k ev) (rest k) _ _ (first k)
            (later k)),
    )

pub nothing_buffered : (m : Streams) (k : StreamKey) → m ≡ [] → buffer m k ≡ []
unfolding find
nothing_buffered m k e = rw e refl

new-IsDrained : (m : Streams) (k : StreamKey) → m ≡ [] → IsDrained m k
unfolding find parse_http_requests parse_one_request index has_prefix
new-IsDrained m k e = rw (nothing_buffered m k e) refl

new-IsStamped : (m : Streams) (k : StreamKey) → m ≡ [] → IsStamped 0 (find m k)
unfolding find
new-IsStamped m k e = rw e tt

-- From an empty map, on events whose payload arrays hold what they announce and none of whose streams
-- makes the parser panic, where no tick of the reaper comes more than ten seconds behind the last
-- segment of a stream that has an unfinished request: the tracker returns, the requests handed on for
-- a stream are those of all its bytes at once, and what those leave over is what stays buffered.
pub live-Advances :
    (sends : Sends) (hs : List Happening) (t : Tracker)
    → t.streams ≡ []
    → AllSized (arrivals_of hs)
    → ((k : StreamKey) → IsInTime k 0 [] hs)
    → ((k : StreamKey)
        → (parse_http_requests (buffer t.streams k ++ history k (arrivals_of hs))).stop ≢ crashed)
    → (u : Tracker) × (sent : Sent) × (live sends t hs ≡ returned (u, sent))
      × ((k : StreamKey)
          → Advances k t.streams (history k (arrivals_of hs)) u.streams (of_stream k sent))
live-Advances sends hs t new sized in_time safe =
    live-Lives sends hs t (λ k. 0) sized safe
      (record {
        mapped = rw new tt;
        drained = λ k. new-IsDrained t.streams k new;
        stamped = λ k. new-IsStamped t.streams k new;
        in_time = λ k. rw (nothing_buffered t.streams k new) (in_time k);
      })
