-- ===== src/Tracker/Feed/Step.antt =====
-- One segment: what Feed returns and what it leaves in the buffers.
use mirror_agent.Base.{
  ℕ, true, false, some, List, [], ◌∷◌, ◌++◌, map, ◌≡◌, ◌≢◌, inl, inr, refl, sym, ap, ◌∙◌, arith,
  leb, Bytes, length, drop, Bool-cases, drop-eq-nil,
}
use mirror_agent.Go.Panic.{Run, returned}
use mirror_agent.Tracker.Request.{CapturedRequest}
use mirror_agent.Tracker.Batch.{
  Batch, Stop, starved, failed, crashed, exhausted, parse_http_requests,
}
use mirror_agent.Tracker.Batch.Append.{leftover}
use mirror_agent.Tracker.Batch.Ends.{no_requests}
use mirror_agent.Tracker.Streams.{StreamKey, Stream, Streams, key_eq, find, put, delete}
use mirror_agent.Tracker.Streams.Laws.{key_eq_iff, find-put, find-delete}
use mirror_agent.Tracker.Feed.{
  Tracker, buffered, append_segment, trim, count_error, assembled, with_source, deliver,
  assemble_on, assemble, feed_segment, is_kept,
}

abbrev pub buffer : Streams → StreamKey → Bytes
buffer m k = buffered (find m k)

-- `m'` has `left` under the key, and under every other key what `m` has.
pub record Leaves (m : Streams) (key : StreamKey) (left : Bytes) (m' : Streams) : Type 0 where
  pub own : buffer m' key ≡ left
  pub others : (j : StreamKey) → key_eq key j ≡ false → find m' j ≡ find m j

key_eq_refl : (k : StreamKey) → key_eq k k ≡ true
key_eq_refl k = (key_eq_iff k k).1 refl

put-Leaves : (m : Streams) (key : StreamKey) (s : Stream) → Leaves m key s.buf (put m key s)
put-Leaves m key s = record {
  own = rw (find-put m key key s, key_eq_refl key);
  others = λ j ne. rw (find-put m key j s, ne);
}

delete-Leaves : (m : Streams) (key : StreamKey) → Leaves m key [] (delete m key)
delete-Leaves m key = record {
  own = rw (find-delete m key key, key_eq_refl key);
  others = λ j ne. rw (find-delete m key j, ne);
}

pub append_segment-Leaves :
    (m : Streams) (now : ℕ) (key : StreamKey) (segment : Bytes)
    → Leaves m key (buffer m key ++ segment) (append_segment m now key segment)
unfolding append_segment
append_segment-Leaves m now key segment = put-Leaves m key _

find-append_segment :
    (m : Streams) (now : ℕ) (key : StreamKey) (segment : Bytes)
    → (s : Stream) × (find (append_segment m now key segment) key ≡ some s)
unfolding append_segment
find-append_segment m now key segment = (
  record { buf = buffered (find m key) ++ segment; last_seen = now },
  rw (find-put m key key _, key_eq_refl key),
)

Leaves-trans :
    (m n o : Streams) (key : StreamKey) (l k : Bytes)
    → Leaves m key l n
    → Leaves n key k o
    → Leaves m key k o
Leaves-trans m n o key l k a b = record {
  own = b.own;
  others = λ j ne. b.others j ne ∙ a.others j ne;
}

-- With the stream still there, the second critical section leaves what was not consumed.
pub trim_lem :
    (m : Streams) (key : StreamKey) (snapshot : Bytes) (consumed : ℕ) (s : Stream)
    → find m key ≡ some s
    → (m' : Streams) × (trim m key snapshot consumed ≡ returned m')
      × Leaves m key (drop consumed snapshot) m'
unfolding trim
trim_lem m key snapshot consumed s e = elim (Bool-cases (leb (length snapshot) consumed)) [
  | inl all ↦ (
    delete m key,
    rw all,
    rw (drop-eq-nil consumed snapshot (ground arith)) (delete-Leaves m key),
  )
  | inr some_left ↦
      (put m key (record s { buf = drop consumed snapshot }), rw (some_left, e), put-Leaves m key _)
]

-- An answer with these requests, which leaves `left` under the key.
abbrev Answers :
    Streams
    → StreamKey
    → List CapturedRequest
    → Bytes
    → Run (Tracker × List CapturedRequest)
    → Type 0
Answers m key rs left o =
    (t' : Tracker) × (o ≡ returned (t', map (with_source key.src_ip) rs))
    × Leaves m key left t'.streams

module _ (key : StreamKey) (snapshot : Bytes) (s : Stream) where
  deliver_lem :
      (t : Tracker) (rs : List CapturedRequest) (consumed : ℕ)
      → find t.streams key ≡ some s
      → s.buf ≡ snapshot
      → (rs ≡ [] → consumed ≡ 0)
      → Answers t.streams key rs (drop consumed snapshot) (deliver t key snapshot rs consumed)
  unfolding deliver
  deliver_lem t [] consumed e b h =
      (t, refl, record { own = rw (e, h refl) b; others = λ j ne. refl })
  deliver_lem t (r ∷ rs) consumed e b h =
      let (m', q, l) = trim_lem t.streams key snapshot consumed s e in
      (record { streams = m'; stats = assembled (length (r ∷ rs)) t.stats }, rw q, l)

  assemble_on_lem :
      (why : Stop) (t : Tracker) (rs : List CapturedRequest) (consumed : ℕ)
      → why ≢ crashed
      → find t.streams key ≡ some s
      → s.buf ≡ snapshot
      → (rs ≡ [] → consumed ≡ 0)
      → Answers t.streams key rs
          (drop consumed snapshot)
          (assemble_on why t key snapshot rs consumed)
  unfolding assemble_on
  assemble_on_lem crashed t rs consumed ne e b h = absurd (ne refl)
  assemble_on_lem starved t rs consumed ne e b h = deliver_lem t rs consumed e b h
  assemble_on_lem failed t rs consumed ne e b h =
      deliver_lem (record t { stats = count_error failed t.stats }) rs consumed e b h
  assemble_on_lem exhausted t rs consumed ne e b h = deliver_lem t rs consumed e b h

-- Feed's answer to a segment behind which the stream holds `all`: the complete requests of `all`,
-- marked with the client's address, and in the buffer what is left of it.
pub record Delivers (m : Streams) (key : StreamKey) (all : Bytes) (t' : Tracker)
    (reqs : List CapturedRequest) : Type 0 where
  pub requests_are : reqs ≡ map (with_source key.src_ip) (parse_http_requests all).requests
  pub leaves : Leaves m key (leftover all) t'.streams

-- A kept segment whose stream does not make the parser panic is answered by the requests that are
-- complete with it; what is left stays buffered, and no other stream is touched.
pub feed_segment-Delivers :
    (t : Tracker) (now : ℕ) (key : StreamKey) (segment : Bytes)
    → is_kept segment ≡ true
    → (parse_http_requests (buffer t.streams key ++ segment)).stop ≢ crashed
    → (t' : Tracker) × (reqs : List CapturedRequest) × (feed_segment t now key segment
        ≡ returned (t', reqs))
      × Delivers t.streams key (buffer t.streams key ++ segment) t' reqs
unfolding feed_segment assemble
feed_segment-Delivers t now key segment kept safe =
    let m = append_segment t.streams now key segment in
    let all = buffer t.streams key ++ segment in
    let b = parse_http_requests all in
    let a = append_segment-Leaves t.streams now key segment in
    let (s, e) = find-append_segment t.streams now key segment in
    let whole : s.buf ≡ all = ap buffered (sym e) ∙ a.own in
    let (t', q, l) =
      assemble_on_lem key all s b.stop (record t { streams = m }) b.requests b.consumed safe e whole
        (λ q. ap (λ (c : Batch). c.consumed) (no_requests all q)) in
    (
      t',
      map (with_source key.src_ip) b.requests,
      rw (kept, a.own) q,
      record { requests_are = refl; leaves = Leaves-trans t.streams m t'.streams key all _ a l },
    )
