-- ===== src/Agent/Machine/Held.antt =====
-- The reaper against the callback, in any interleaving: what of the stream is left while Feed parses.
use mirror_agent.Base.{
  ℕ, ◌+◌, ◌<◌, none, some, List, [], ◌∷◌, ◌++◌, ◌≡◌, ◌⊎◌, refl, ◌∙◌, inl, inr, arith, ◌==◌, Bytes,
  Bool-cases, if_both,
}
use mirror_agent.Go.Panic.{Run, returned, panicked}
use mirror_agent.Event.{PktEvent}
use mirror_agent.Tracker.Request.{CapturedRequest}
use mirror_agent.Tracker.Batch.{Stop, starved, crashed, exhausted}
use mirror_agent.Tracker.Streams.{StreamKey, Stream, Streams, find, put}
use mirror_agent.Tracker.Streams.Laws.{key_eq_iff, find-put}
use mirror_agent.Tracker.Feed.{
  Tracker, key_of, payload_of, is_kept, buffered, append_segment, received, count_error,
}
use mirror_agent.Tracker.Reaper.{window, is_stale, reap}
use mirror_agent.Tracker.Reaper.Laws.{IsMap, put-IsMap, kept, reap_lem}
use mirror_agent.Agent.Machine.{
  Phase, idle, parsing, trimming, ended, take_segment, on_payload, first_half, on_requests, on_stop,
}

-- The stream is as Feed left it, or it is gone, and the clock is ten seconds on.
abbrev pub Holds : ℕ → Streams → StreamKey → Bytes → ℕ → Type 0
Holds clock m key snapshot since =
    (find m key ≡ some (record { buf = snapshot; last_seen = since }))
    ⊎ ((find m key ≡ none) × (since + window < clock))

-- What the callback relies on.
pub data Relies (clock : ℕ) (m : Streams) : Phase → Type 0 where
  nothing_idle : Relies clock m idle
  nothing_ended : Relies clock m ended
  on_parsing :
      (key : StreamKey) (snapshot : Bytes) (since : ℕ)
      → Holds clock m key snapshot since
      → Relies clock m (parsing key snapshot since)
  on_trimming :
      (key : StreamKey) (snapshot : Bytes) (since : ℕ) (reqs : List CapturedRequest) (consumed : ℕ)
      → Holds clock m key snapshot since
      → Relies clock m (trimming key snapshot since reqs consumed)

-- Holding goes over to another clock and map.
pub Relies-map :
    (clock clock' : ℕ) (m m' : Streams) (phase : Phase)
    → ((key : StreamKey) (snapshot : Bytes) (since : ℕ)
        → Holds clock m key snapshot since
        → Holds clock' m' key snapshot since)
    → Relies clock m phase
    → Relies clock' m' phase
Relies-map clock clock' m m' _ f nothing_idle = nothing_idle
Relies-map clock clock' m m' _ f nothing_ended = nothing_ended
Relies-map clock clock' m m' _ f (on_parsing key snapshot since h) =
    on_parsing key snapshot since (f key snapshot since h)
Relies-map clock clock' m m' _ f (on_trimming key snapshot since reqs consumed h) =
    on_trimming key snapshot since reqs consumed (f key snapshot since h)

pub Holds-wait :
    (clock d : ℕ) (m : Streams) (key : StreamKey) (snapshot : Bytes) (since : ℕ)
    → Holds clock m key snapshot since
    → Holds (clock + d) m key snapshot since
Holds-wait clock d m key snapshot since (inl e) = inl e
Holds-wait clock d m key snapshot since (inr (e, late)) = inr (e, omega arith)

pub Holds-reap :
    (clock : ℕ) (t : Tracker) (key : StreamKey) (snapshot : Bytes) (since : ℕ)
    → IsMap t.streams
    → Holds clock t.streams key snapshot since
    → Holds clock (reap t clock).streams key snapshot since
Holds-reap clock t key snapshot since mapped (inr (e, late)) =
    inr ((reap_lem t clock mapped).0 key ∙ rw e refl, late)
Holds-reap clock t key snapshot since mapped (inl e) =
    let s : Stream = record { buf = snapshot; last_seen = since } in
    let found : find (reap t clock).streams key ≡ kept clock (some s) =
      (reap_lem t clock mapped).0 key ∙ rw e refl in
    elim (Bool-cases (is_stale clock s)) [
      | inl old ↦ inr (found ∙ rw old refl, ground arith)
      | inr new ↦ inl (found ∙ rw new refl)
    ]

-- A step of the callback leaves what it relies on.
pub record Leads (clock : ℕ) (result : Tracker × Phase) : Type 0 where
  pub mapped : IsMap result.0.streams
  pub relies : Relies clock result.0.streams result.1

take_segment-Leads :
    (t : Tracker) (now : ℕ) (key : StreamKey) (segment : Bytes)
    → IsMap t.streams
    → Leads now (take_segment t now key segment)
unfolding take_segment append_segment
take_segment-Leads t now key segment mapped =
    let s : Stream = record { buf = buffered (find t.streams key) ++ segment; last_seen = now } in
    let put_self : find (put t.streams key s) key ≡ some s =
      find-put t.streams key key s ∙ rw ((key_eq_iff key key).1 refl) refl in
    if_both (Leads now) (is_kept segment)
      (record {
        mapped = put-IsMap t.streams key _ mapped;
        relies = on_parsing key _ now (inl (rw put_self refl));
      })
      (record { mapped = mapped; relies = nothing_idle })

on_payload-Leads :
    (t : Tracker) (now : ℕ) (key : StreamKey) (payload : Run Bytes)
    → IsMap t.streams
    → Leads now (on_payload t now key payload)
unfolding on_payload
on_payload-Leads t now key panicked mapped = record { mapped = mapped; relies = nothing_ended }
on_payload-Leads t now key (returned segment) mapped = take_segment-Leads t now key segment mapped

pub first_half-Leads :
    (t : Tracker) (now : ℕ) (ev : PktEvent) → IsMap t.streams → Leads now (first_half t now ev)
unfolding first_half
first_half-Leads t now ev mapped =
    if_both (Leads now) (ev.payload_len == 0) (record { mapped = mapped; relies = nothing_idle })
      (on_payload-Leads (received t) now (key_of ev) (payload_of ev) mapped)

module _ (clock : ℕ) (key : StreamKey) (snapshot : Bytes) (since : ℕ) where
  on_requests-Leads :
      (t : Tracker) (rs : List CapturedRequest) (consumed : ℕ)
      → IsMap t.streams
      → Holds clock t.streams key snapshot since
      → Leads clock (on_requests t key snapshot since rs consumed)
  unfolding on_requests
  on_requests-Leads t [] consumed mapped h = record { mapped = mapped; relies = nothing_idle }
  on_requests-Leads t (r ∷ rs) consumed mapped h = record {
    mapped = mapped;
    relies = on_trimming key snapshot since _ consumed h;
  }

  pub on_stop-Leads :
      (why : Stop) (t : Tracker) (rs : List CapturedRequest) (consumed : ℕ)
      → IsMap t.streams
      → Holds clock t.streams key snapshot since
      → Leads clock (on_stop why t key snapshot since rs consumed)
  unfolding on_stop
  on_stop-Leads crashed t rs consumed mapped h = record { mapped = mapped; relies = nothing_ended }
  on_stop-Leads starved t rs consumed mapped h = on_requests-Leads t rs consumed mapped h
  on_stop-Leads exhausted t rs consumed mapped h = on_requests-Leads t rs consumed mapped h
  on_stop-Leads Stop.failed t rs consumed mapped h =
      on_requests-Leads (record t { stats = count_error Stop.failed t.stats }) rs consumed mapped h
