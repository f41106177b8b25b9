-- ===== src/Tracker/Reaper/Laws.antt =====
-- What a tick of the reaper removes, and that the map stays a map.
use mirror_agent.Base.{
  ℕ, ◌+◌, Option, none, some, [], ◌∷◌, ◌≡◌, inl, inr, refl, arith, if◌then◌else◌, length,
  Bool-cases,
}
use mirror_agent.Tracker.Streams.{StreamKey, Stream, Streams, key_eq, find, put, delete}
use mirror_agent.Tracker.Streams.Laws.{key_eq_iff, find-put, find-delete}
use mirror_agent.Tracker.Feed.{Tracker}
use mirror_agent.Tracker.Reaper.{is_stale, fresh, stale, reap}

-- Each key stands once.
abbrev pub IsMap : Streams → Type 0
IsMap [] = Unit
IsMap ((k, s) ∷ m) = (find m k ≡ none) × IsMap m

pub put-IsMap : (m : Streams) (k : StreamKey) (s : Stream) → IsMap m → IsMap (put m k s)
unfolding put find
put-IsMap [] k s h = (refl, tt)
put-IsMap ((j, r) ∷ m) k s h = elim (Bool-cases (key_eq j k)) [
  | inl same ↦ rw same h
  | inr ne ↦
      rw ne (
        rw (find-put m k j s) (ground (arith, key_eq_iff j k, key_eq_iff k j)),
        put-IsMap m k s h.1,
      )
]

pub delete-IsMap : (m : Streams) (k : StreamKey) → IsMap m → IsMap (delete m k)
unfolding delete find
delete-IsMap [] k h = tt
delete-IsMap ((j, r) ∷ m) k h = elim (Bool-cases (key_eq j k)) [
  | inl same ↦ rw same (delete-IsMap m k h.1)
  | inr ne ↦ rw ne (rw (find-delete m k j) (ground (arith, h.0)), delete-IsMap m k h.1)
]

-- What a tick at `now` makes of a looked-up stream.
abbrev pub kept : ℕ → Option Stream → Option Stream
kept now none = none
kept now (some s) = if is_stale now s then none else some s

find-fresh-none :
    (now : ℕ) (m : Streams) (k : StreamKey) → find m k ≡ none → find (fresh now m) k ≡ none
unfolding find fresh
find-fresh-none now [] k h = refl
find-fresh-none now ((j, s) ∷ m) k h = ground (arith, find-fresh-none now m k)

pub fresh-find :
    (now : ℕ) (m : Streams) (k : StreamKey) → IsMap m → find (fresh now m) k ≡ kept now (find m k)
unfolding find fresh
fresh-find now [] k h = refl
fresh-find now ((j, s) ∷ m) k h =
    ground (arith, fresh-find now m k h.1, key_eq_iff j k, find-fresh-none now m k, h.0)

pub fresh-IsMap : (now : ℕ) (m : Streams) → IsMap m → IsMap (fresh now m)
unfolding fresh
fresh-IsMap now [] h = tt
fresh-IsMap now ((j, s) ∷ m) h = elim (Bool-cases (is_stale now s)) [
  | inl old ↦ rw old (fresh-IsMap now m h.1)
  | inr new ↦ rw new (find-fresh-none now m j h.0, fresh-IsMap now m h.1)
]

length-fresh : (now : ℕ) (m : Streams) → length (fresh now m) + length (stale now m) ≡ length m
unfolding fresh stale
length-fresh now [] = refl
length-fresh now ((j, s) ∷ m) = ground (arith, length-fresh now m)

-- A tick of the reaper removes exactly the streams not seen for more than ten seconds, leaves every
-- other as it is, and counts each removal once.
pub reap_lem :
    (t : Tracker) (now : ℕ)
    → IsMap t.streams
    → ((k : StreamKey) → find (reap t now).streams k ≡ kept now (find t.streams k))
      × ((reap t now).stats.streams_reaped + length (reap t now).streams
          ≡ t.stats.streams_reaped + length t.streams)
unfolding reap
reap_lem t now h = (λ k. fresh-find now t.streams k h, omega (arith, length-fresh now t.streams))
