-- ===== src/Tracker/Live/Stamped.antt =====
-- When the streams of the map were last seen.
use mirror_agent.Base.{
  ℕ, true, false, Option, none, some, List, [], ◌∷◌, ◌≡◌, refl, inl, inr, arith, leb, ltb, ◌==◌,
  if◌then◌else◌, Bytes, length, take, Bool-cases, Option-cases,
}
use mathlib.Core.Path.{subst}
use mirror_agent.Go.Panic.{returned, returned-eq, bind-eq-returned}
use mirror_agent.Event.{PktEvent}
use mirror_agent.Tracker.Request.{CapturedRequest}
use mirror_agent.Tracker.Batch.{Stop, starved, crashed, exhausted, parse_http_requests}
use mirror_agent.Tracker.Streams.{StreamKey, Stream, Streams, key_eq, find, put}
use mirror_agent.Tracker.Streams.Laws.{key_eq_iff, find-put, find-delete}
use mirror_agent.Tracker.Feed.{
  Tracker, key_of, payload_of, is_kept, buffered, append_segment, trim, count_error, deliver,
  assemble_on, assemble, feed_segment, feed, received,
}
use mirror_agent.Tracker.Reaper.Laws.{IsMap, put-IsMap, delete-IsMap}
use mirror_agent.Tracker.Live.{brings}

-- The stream, if it is in the map, was last seen then.
abbrev pub IsStamped : ℕ → Option Stream → Type 0
IsStamped seen none = Unit
IsStamped seen (some s) = s.last_seen ≡ seen

-- From `m` to `m'`, with the stream of the key stamped and the others as they were.
record Stamps (now : ℕ) (key : StreamKey) (m m' : Streams) : Type 0 where
  mapped : IsMap m'
  own : IsStamped now (find m' key)
  others : (j : StreamKey) → key_eq key j ≡ false → find m' j ≡ find m j

put-Stamps :
    (now : ℕ) (key : StreamKey) (m m' : Streams) (s : Stream)
    → IsMap m'
    → s.last_seen ≡ now
    → ((j : StreamKey) → key_eq key j ≡ false → find m' j ≡ find m j)
    → Stamps now key m (put m' key s)
put-Stamps now key m m' s mapped seen others = record {
  mapped = put-IsMap m' key s mapped;
  own = rw (find-put m' key key s, (key_eq_iff key key).1 refl) seen;
  others = λ j ne. rw (find-put m' key j s, ne) (others j ne);
}

append_segment-Stamps :
    (now : ℕ) (key : StreamKey) (m : Streams) (segment : Bytes)
    → IsMap m
    → Stamps now key m (append_segment m now key segment)
unfolding append_segment
append_segment-Stamps now key m segment mapped = put-Stamps now key m m _ mapped refl (λ j ne. refl)

trim-Stamps :
    (now : ℕ) (key : StreamKey) (m n : Streams) (snapshot : Bytes) (consumed : ℕ) {m' : Streams}
    → Stamps now key m n
    → trim n key snapshot consumed ≡ returned m'
    → Stamps now key m m'
unfolding trim
trim-Stamps now key m n snapshot consumed {m'} st e =
    elim (Bool-cases (leb (length snapshot) consumed)) [
      | inl all ↦ subst (Stamps now key m) (returned-eq (rw all at e)) (record {
        mapped = delete-IsMap n key st.mapped;
        own = rw (find-delete n key key, (key_eq_iff key key).1 refl) tt;
        others = λ j ne. rw (find-delete n key j, ne) (st.others j ne);
      })
      | inr part ↦ elim (Option-cases (find n key)) [
        | inl gone ↦ cc (rw (part, gone) at e)
        | inr (s, found) ↦
            subst (Stamps now key m) (returned-eq (rw (part, found) at e))
              (put-Stamps now key m n _ st.mapped (rw found at st.own) st.others)
      ]
    ]

module _ (now : ℕ) (key : StreamKey) (m : Streams) where
  deliver-Stamps :
      (t : Tracker) (snapshot : Bytes) (rs : List CapturedRequest) (consumed : ℕ) {u : Tracker}
      {reqs : List CapturedRequest}
      → Stamps now key m t.streams
      → deliver t key snapshot rs consumed ≡ returned (u, reqs)
      → Stamps now key m u.streams
  unfolding deliver
  deliver-Stamps t snapshot [] consumed st e =
      subst (λ (z : Tracker × List CapturedRequest). Stamps now key m z.0.streams) (returned-eq e)
        st
  deliver-Stamps t snapshot (r ∷ rs) consumed st e =
      let (n, trimmed, q) = bind-eq-returned _ _ e in
      subst (λ (z : Tracker × List CapturedRequest). Stamps now key m z.0.streams) (returned-eq q)
        (trim-Stamps now key m t.streams snapshot consumed st trimmed)

  assemble_on-Stamps :
      (why : Stop) (t : Tracker) (snapshot : Bytes) (rs : List CapturedRequest) (consumed : ℕ)
      {u : Tracker} {reqs : List CapturedRequest}
      → Stamps now key m t.streams
      → assemble_on why t key snapshot rs consumed ≡ returned (u, reqs)
      → Stamps now key m u.streams
  unfolding assemble_on
  assemble_on-Stamps crashed t snapshot rs consumed st e = cc
  assemble_on-Stamps starved t snapshot rs consumed st e =
      deliver-Stamps t snapshot rs consumed st e
  assemble_on-Stamps exhausted t snapshot rs consumed st e =
      deliver-Stamps t snapshot rs consumed st e
  assemble_on-Stamps Stop.failed t snapshot rs consumed st e =
      deliver-Stamps (record t { stats = count_error Stop.failed t.stats }) snapshot rs consumed st
        e

feed_segment-Stamps :
    (t : Tracker) (now : ℕ) (key : StreamKey) (segment : Bytes) {u : Tracker}
    {reqs : List CapturedRequest}
    → IsMap t.streams
    → is_kept segment ≡ true
    → feed_segment t now key segment ≡ returned (u, reqs)
    → Stamps now key t.streams u.streams
unfolding feed_segment assemble
feed_segment-Stamps t now key segment mapped kept e =
    let m = append_segment t.streams now key segment in
    let snapshot = buffered (find m key) in
    let b = parse_http_requests snapshot in
    assemble_on-Stamps now key t.streams b.stop (record t { streams = m }) snapshot b.requests
      b.consumed (append_segment-Stamps now key t.streams segment mapped) (rw kept at e)

-- What Feed leaves of the stamps: the stream of a kept segment is seen now, if it is still there.
pub record Seen (t : Tracker) (now : ℕ) (ev : PktEvent) (u : Tracker) : Type 0 where
  pub still_map : IsMap u.streams
  pub stamped :
      (k : StreamKey) (seen : ℕ)
      → IsStamped seen (find t.streams k)
      → IsStamped (if brings k ev then now else seen) (find u.streams k)

untouched-Seen :
    (t : Tracker) (now : ℕ) (ev : PktEvent) (u : Tracker)
    → IsMap t.streams
    → u.streams ≡ t.streams
    → ((k : StreamKey) → brings k ev ≡ false)
    → Seen t now ev u
untouched-Seen t now ev u mapped e nothing = record {
  still_map = rw e mapped;
  stamped = λ k seen s. rw (nothing k, e) s;
}

Stamps-Seen :
    (t : Tracker) (now : ℕ) (ev : PktEvent) (u : Tracker)
    → (ev.payload_len == 0) ≡ false
    → is_kept (take ev.payload_len ev.payload) ≡ true
    → Stamps now (key_of ev) t.streams u.streams
    → Seen t now ev u
Stamps-Seen t now ev u z kept st = record {
  still_map = st.mapped;
  stamped = λ k seen s. elim (Bool-cases (key_eq (key_of ev) k)) [
    | inl same ↦
        let e : key_of ev ≡ k = (key_eq_iff (key_of ev) k).0 same in
        rw (same, z, kept) (rw (← e) st.own)
    | inr other ↦ rw (other, st.others k other) s
  ];
}

pub feed-Seen :
    (t : Tracker) (now : ℕ) (ev : PktEvent) {u : Tracker} {reqs : List CapturedRequest}
    → IsMap t.streams
    → feed t now ev ≡ returned (u, reqs)
    → Seen t now ev u
unfolding feed payload_of
feed-Seen t now ev {u} mapped e = elim (Bool-cases (ev.payload_len == 0)) [
  | inl z ↦ untouched-Seen t now ev u mapped (ground (arith, rw z at e)) (λ k. rw z (ground arith))
  | inr z ↦ elim (Bool-cases (ltb (length ev.payload) ev.payload_len)) [
    | inl short ↦ cc (rw (z, short) at e)
    | inr fits ↦ elim (Bool-cases (is_kept (take ev.payload_len ev.payload))) [
      | inl kept ↦
          Stamps-Seen t now ev u z kept
            (feed_segment-Stamps (received t) now (key_of ev) _ mapped kept (rw (z, fits) at e))
      | inr gone ↦
          untouched-Seen t now ev u mapped
            (unfold feed_segment in ground (arith, gone, rw (z, fits) at e))
            (λ k. rw (z, gone) (ground arith))
    ]
  ]
]
