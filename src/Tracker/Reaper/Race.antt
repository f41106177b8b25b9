-- ===== src/Tracker/Reaper/Race.antt =====
-- A tick of the reaper between the two critical sections of Feed.
use mirror_agent.Base.{
  ℕ, ◌+◌, ◌≤◌, ◌<◌, none, some, ◌++◌, ◌≡◌, refl, ap, ◌∙◌, arith, Bytes, length, drop, ltb-false,
  lt→ltb,
}
use mirror_agent.Go.Panic.{returned, panicked}
use mirror_agent.Tracker.Streams.{StreamKey, Stream, Streams, find}
use mirror_agent.Tracker.Streams.Laws.{key_eq_iff, find-put}
use mirror_agent.Tracker.Feed.{Tracker, append_segment, trim, buffered}
use mirror_agent.Tracker.Feed.Step.{Leaves, trim_lem}
use mirror_agent.Tracker.Reaper.{window, reap}
use mirror_agent.Tracker.Reaper.Laws.{IsMap, put-IsMap, kept, reap_lem}

-- The tracker behind the first critical section.
abbrev pub appended : Tracker → ℕ → StreamKey → Bytes → Tracker
appended t now key segment = record t { streams = append_segment t.streams now key segment }

abbrev last_segment : Tracker → ℕ → StreamKey → Bytes → Stream
last_segment t now key segment = record {
  buf = buffered (find t.streams key) ++ segment;
  last_seen = now;
}

module _ (t : Tracker) (now : ℕ) (key : StreamKey) (segment : Bytes) (h : IsMap t.streams) where
  found :
      (later : ℕ)
      → find (reap (appended t now key segment) later).streams key
        ≡ kept later (some (last_segment t now key segment))
  unfolding append_segment
  found later =
      (reap_lem (appended t now key segment) later (put-IsMap t.streams key _ h)).0 key
      ∙ ap (kept later) {y = some (last_segment t now key segment)}
          (rw (find-put t.streams key key _, (key_eq_iff key key).1 refl))

  -- Up to ten seconds after the segment was appended, a tick in between does no harm: Feed goes on
  -- and leaves in the stream what was not consumed.
  pub trim-reap :
      (later : ℕ) (snapshot : Bytes) (consumed : ℕ)
      → later ≤ now + window
      → (m' : Streams) × (trim
            (reap (appended t now key segment) later).streams
            key
            snapshot
            consumed
          ≡ returned m')
        × Leaves (reap (appended t now key segment) later).streams key (drop consumed snapshot) m'
  trim-reap later snapshot consumed soon =
      trim_lem _ key snapshot consumed (last_segment t now key segment)
        (found later ∙ rw (ltb-false (now + window) later soon))

  -- Past ten seconds the stream is gone, and Feed's second critical section dereferences a nil
  -- pointer, unless all that it had buffered was consumed.
  pub trim-reap_panics :
      (later : ℕ) (snapshot : Bytes) (consumed : ℕ)
      → now + window < later
      → consumed < length snapshot
      → trim (reap (appended t now key segment) later).streams key snapshot consumed ≡ panicked
  unfolding trim
  trim-reap_panics later snapshot consumed late part =
      let gone : find (reap (appended t now key segment) later).streams key ≡ none =
        found later ∙ rw (lt→ltb (now + window) later late) in
      ground (arith, gone)
