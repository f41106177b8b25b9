-- ===== src/Tests/Ordering.antt =====
-- Two streams in a map, in both orders.
use mirror_agent.Base.{◌*◌, ◌^◌, List, [], ◌∷◌, ◌≡◌, refl, arith}
use mirror_agent.Stats.{zeroed}
use mirror_agent.Tracker.Streams.{StreamKey, Stream, find, key_eq}
use mirror_agent.Tracker.Streams.Laws.{key_eq_iff}
use mirror_agent.Tracker.Feed.{Tracker}
use mirror_agent.Tracker.Live.{Happening, fed, ticked}
use mirror_agent.Tracker.Order.Observed.{LooksLike, SameRun, happen_all, happen_all-SameRun}
use mirror_agent.Tests.Data.{client, carrying, first_part, second_part}

abbrev neighbour : StreamKey
neighbour = record client { src_port = 51235 }

abbrev recent : Stream
recent = record { buf = first_part; last_seen = 10 ^ 9 }

abbrev empty : Stream
empty = record { buf = []; last_seen = 0 }

abbrev one_order : Tracker
one_order = record { streams = (client, recent) ∷ (neighbour, empty) ∷ []; stats = zeroed }

abbrev other_order : Tracker
other_order = record { streams = (neighbour, empty) ∷ (client, recent) ∷ []; stats = zeroed }

swapped : (k : StreamKey) → find one_order.streams k ≡ find other_order.streams k
unfolding find
swapped k = ground (arith, key_eq_iff client k, key_eq_iff neighbour k)

looks_alike : LooksLike one_order other_order
unfolding find key_eq
looks_alike = record {
  counters = refl;
  streams = record { left = (refl, (refl, tt)); right = (refl, (refl, tt)); lookups = swapped };
}

abbrev happenings : List Happening
happenings = fed (2 * 10 ^ 9) (carrying second_part) ∷ ticked (11 * 10 ^ 9) ∷ []

happen_all-SameRun_example :
    SameRun (happen_all one_order happenings) (happen_all other_order happenings)
happen_all-SameRun_example = happen_all-SameRun happenings one_order other_order looks_alike
