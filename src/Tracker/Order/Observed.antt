-- ===== src/Tracker/Order/Observed.antt =====
-- What can be observed of a tracker does not depend on the order of its map.
use mirror_agent.Base.{
  ℕ, Bool, true, false, List, [], ◌∷◌, ◌++◌, ◌≡◌, refl, sym, ◌∙◌, inl, inr, Bool-cases,
  Option-cases, if◌then◌else◌, Bytes, length, leb, ◌==◌,
}
use mirror_agent.Go.Panic.{Run, returned, panicked, ◌>>=◌}
use mirror_agent.Stats.{Stats}
use mirror_agent.Event.{PktEvent}
use mirror_agent.Tracker.Request.{CapturedRequest}
use mirror_agent.Tracker.Batch.{Stop, starved, crashed, exhausted, parse_http_requests}
use mirror_agent.Tracker.Streams.{StreamKey, Streams, find}
use mirror_agent.Tracker.Feed.{
  Tracker, key_of, payload_of, is_kept, buffered, append_segment, trim, deliver, assemble_on,
  assemble, feed_segment, feed, received_stats, count_error,
}
use mirror_agent.Tracker.Reaper.{reap}
use mirror_agent.Tracker.Live.{Happening, fed, ticked}
use mirror_agent.Tracker.Order.{IsReordered, IsReordered-put, IsReordered-delete, IsReordered-fresh}
use mirror_agent.Tracker.Order.Counting.{length-stale}

-- Nothing but the order of the map tells the trackers apart.
pub record LooksLike (t t' : Tracker) : Type 0 where
  pub counters : t.stats ≡ t'.stats
  pub streams : IsReordered t.streams t'.streams

pub data SameTrim : Run Streams → Run Streams → Type 0 where
  trims : (m m' : Streams) → IsReordered m m' → SameTrim (returned m) (returned m')
  no_stream : SameTrim panicked panicked

-- The same requests, and trackers that look like each other; or a panic of both.
pub data SameRun
    : Run (Tracker × List CapturedRequest) → Run (Tracker × List CapturedRequest) → Type 0 where
  returns :
      (t t' : Tracker) (reqs : List CapturedRequest)
      → LooksLike t t'
      → SameRun (returned (t, reqs)) (returned (t', reqs))
  panics : SameRun panicked panicked

trim_same :
    (m m' : Streams) (key : StreamKey) (snapshot : Bytes) (consumed : ℕ)
    → IsReordered m m'
    → SameTrim (trim m key snapshot consumed) (trim m' key snapshot consumed)
unfolding trim
trim_same m m' key snapshot consumed r = elim (Bool-cases (leb (length snapshot) consumed)) [
  | inl all ↦ rw all (trims _ _ (IsReordered-delete m m' key r))
  | inr part ↦ elim (Option-cases (find m key)) [
    | inl gone ↦ rw (part, gone, sym (r.lookups key) ∙ gone) no_stream
    | inr (s, found) ↦
        rw (part, found, sym (r.lookups key) ∙ found) (trims _ _ (IsReordered-put m m' key _ r))
  ]
]

trimmed_same :
    (stats : Stats) (reqs : List CapturedRequest) (a b : Run Streams)
    → SameTrim a b
    → SameRun
        (do m ← a; returned ((record { streams = m; stats = stats }), reqs))
        (do m ← b; returned ((record { streams = m; stats = stats }), reqs))
trimmed_same stats reqs _ _ (trims m m' r) =
    returns _ _ reqs (record { counters = refl; streams = r })
trimmed_same stats reqs _ _ no_stream = panics

deliver_same :
    (stats : Stats) (m m' : Streams) (key : StreamKey) (snapshot : Bytes)
    (rs : List CapturedRequest) (consumed : ℕ)
    → IsReordered m m'
    → SameRun
        (deliver (record { streams = m; stats = stats }) key snapshot rs consumed)
        (deliver (record { streams = m'; stats = stats }) key snapshot rs consumed)
unfolding deliver
deliver_same stats m m' key snapshot [] consumed e =
    returns _ _ [] (record { counters = refl; streams = e })
deliver_same stats m m' key snapshot (r ∷ rs) consumed e =
    trimmed_same _ _ _ _ (trim_same m m' key snapshot consumed e)

assemble_same :
    (why : Stop) (stats : Stats) (m m' : Streams) (key : StreamKey) (snapshot : Bytes)
    (rs : List CapturedRequest) (consumed : ℕ)
    → IsReordered m m'
    → SameRun
        (assemble_on why (record { streams = m; stats = stats }) key snapshot rs consumed)
        (assemble_on why (record { streams = m'; stats = stats }) key snapshot rs consumed)
unfolding assemble_on
assemble_same crashed stats m m' key snapshot rs consumed e = panics
assemble_same starved stats m m' key snapshot rs consumed e =
    deliver_same stats m m' key snapshot rs consumed e
assemble_same exhausted stats m m' key snapshot rs consumed e =
    deliver_same stats m m' key snapshot rs consumed e
assemble_same Stop.failed stats m m' key snapshot rs consumed e =
    deliver_same (count_error Stop.failed stats) m m' key snapshot rs consumed e

SameRun-if :
    (b : Bool) (x y x' y' : Run (Tracker × List CapturedRequest))
    → SameRun x x'
    → SameRun y y'
    → SameRun (if b then x else y) (if b then x' else y')
SameRun-if true x y x' y' h k = h
SameRun-if false x y x' y' h k = k

kept_same :
    (stats : Stats) (m m' : Streams) (key : StreamKey)
    → IsReordered m m'
    → SameRun
        (assemble
          (record { streams = m; stats = stats })
          key
          (buffered (find m key))
          (parse_http_requests (buffered (find m key))))
        (assemble
          (record { streams = m'; stats = stats })
          key
          (buffered (find m' key))
          (parse_http_requests (buffered (find m' key))))
unfolding assemble
kept_same stats m m' key r =
    rw (r.lookups key) (assemble_same _ stats m m' key (buffered (find m' key)) _ _ r)

append_same :
    (m m' : Streams) (now : ℕ) (key : StreamKey) (segment : Bytes)
    → IsReordered m m'
    → IsReordered (append_segment m now key segment) (append_segment m' now key segment)
unfolding append_segment
append_same m m' now key segment r = rw (r.lookups key) (IsReordered-put m m' key _ r)

module _ (stats : Stats) (m m' : Streams) (now : ℕ) (r : IsReordered m m') where
  feed_segment_same :
      (key : StreamKey) (segment : Bytes)
      → SameRun
          (feed_segment (record { streams = m; stats = stats }) now key segment)
          (feed_segment (record { streams = m'; stats = stats }) now key segment)
  unfolding feed_segment
  feed_segment_same key segment =
      SameRun-if (is_kept segment) _ _ _ _
        (kept_same stats _ _ key (append_same m m' now key segment r))
        (returns _ _ [] (record { counters = refl; streams = r }))

  payload_same :
      (key : StreamKey) (payload : Run Bytes)
      → SameRun
          (do
            segment ← payload
            feed_segment (record { streams = m; stats = stats }) now key segment)
          (do
            segment ← payload
            feed_segment (record { streams = m'; stats = stats }) now key segment)
  payload_same key panicked = panics
  payload_same key (returned segment) = feed_segment_same key segment

feed_shared :
    (stats : Stats) (m m' : Streams) (now : ℕ) (ev : PktEvent)
    → IsReordered m m'
    → SameRun
        (feed (record { streams = m; stats = stats }) now ev)
        (feed (record { streams = m'; stats = stats }) now ev)
unfolding feed
feed_shared stats m m' now ev r =
    SameRun-if (ev.payload_len == 0) _ _ _ _
      (returns _ _ [] (record { counters = refl; streams = r }))
      (payload_same (received_stats stats) m m' now r (key_of ev) (payload_of ev))

feed_same :
    (t t' : Tracker) (now : ℕ) (ev : PktEvent)
    → LooksLike t t'
    → SameRun (feed t now ev) (feed t' now ev)
feed_same t t' now ev l = rw l.counters (feed_shared t'.stats t.streams t'.streams now ev l.streams)

reap_same : (t t' : Tracker) (now : ℕ) → LooksLike t t' → LooksLike (reap t now) (reap t' now)
unfolding reap
reap_same t t' now l = record {
  counters = rw (l.counters, length-stale now t.streams t'.streams l.streams) refl;
  streams = IsReordered-fresh now t.streams t'.streams l.streams;
}

unfoldable pub happen : Tracker → Happening → Run (Tracker × List CapturedRequest)
happen t (fed now ev) = feed t now ev
happen t (ticked now) = returned (reap t now, [])

-- One after the other, and all the requests that Feed returns.
unfoldable pub happen_all : Tracker → List Happening → Run (Tracker × List CapturedRequest)
unfolding happen
happen_all t [] = returned (t, [])
happen_all t (h ∷ hs) = do
  (u, reqs) ← happen t h
  (v, rest) ← happen_all u hs
  returned (v, reqs ++ rest)

happen_same : (t t' : Tracker) (h : Happening) → LooksLike t t' → SameRun (happen t h) (happen t' h)
unfolding happen
happen_same t t' (fed now ev) l = feed_same t t' now ev l
happen_same t t' (ticked now) l = returns _ _ [] (reap_same t t' now l)

more_same :
    (reqs : List CapturedRequest) (a b : Run (Tracker × List CapturedRequest))
    → SameRun a b
    → SameRun
        (do (v, rest) ← a; returned (v, reqs ++ rest))
        (do (v, rest) ← b; returned (v, reqs ++ rest))
more_same reqs _ _ (returns t t' rest l) = returns t t' (reqs ++ rest) l
more_same reqs _ _ panics = panics

then_same :
    (hs : List Happening) (a b : Run (Tracker × List CapturedRequest))
    → SameRun a b
    → ((t t' : Tracker) → LooksLike t t' → SameRun (happen_all t hs) (happen_all t' hs))
    → SameRun
        (do (u, reqs) ← a; (v, rest) ← happen_all u hs; returned (v, reqs ++ rest))
        (do (u, reqs) ← b; (v, rest) ← happen_all u hs; returned (v, reqs ++ rest))
then_same hs _ _ (returns t t' reqs l) go = more_same reqs _ _ (go t t' l)
then_same hs _ _ panics go = panics

-- Two trackers with the same counters whose maps hold the same streams, each key once, in whatever
-- order: over any sequence of events and ticks of the reaper, both return the same requests and come to
-- the same counters and the same streams, or both panic.
pub happen_all-SameRun :
    (hs : List Happening) (t t' : Tracker)
    → LooksLike t t'
    → SameRun (happen_all t hs) (happen_all t' hs)
unfolding happen_all
happen_all-SameRun [] t t' l = returns t t' [] l
happen_all-SameRun (h ∷ hs) t t' l = then_same hs _ _ (happen_same t t' h l) (happen_all-SameRun hs)
