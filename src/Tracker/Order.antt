-- ===== src/Tracker/Order.antt =====
-- The map of streams in another order. Go leaves open in which order a map holds its keys, and the list
-- of Tracker/Streams is one such order.
pub mod Counting
pub mod Observed
use mirror_agent.Base.{
  ℕ, true, false, Option, none, some, List, [], ◌∷◌, ◌≡◌, refl, sym, ap, ◌∙◌, inl, inr, Bool-cases,
  if◌then◌else◌,
}
use mirror_agent.Tracker.Streams.{StreamKey, Stream, Streams, key_eq, find, put, delete}
use mirror_agent.Tracker.Streams.Laws.{find-put, find-delete}
use mirror_agent.Tracker.Reaper.{fresh}
use mirror_agent.Tracker.Reaper.Laws.{IsMap, put-IsMap, delete-IsMap, fresh-IsMap, fresh-find, kept}

-- The same streams under the same keys, each key once.
pub record IsReordered (m m' : Streams) : Type 0 where
  pub left : IsMap m
  pub right : IsMap m'
  pub lookups : (k : StreamKey) → find m k ≡ find m' k

pub IsReordered-put :
    (m m' : Streams) (k : StreamKey) (s : Stream)
    → IsReordered m m'
    → IsReordered (put m k s) (put m' k s)
IsReordered-put m m' k s r = record {
  left = put-IsMap m k s r.left;
  right = put-IsMap m' k s r.right;
  lookups = λ j.
      find-put m k j s
      ∙ ap (λ x. if key_eq k j then some s else x) (r.lookups j)
      ∙ sym (find-put m' k j s);
}

pub IsReordered-delete :
    (m m' : Streams) (k : StreamKey) → IsReordered m m' → IsReordered (delete m k) (delete m' k)
IsReordered-delete m m' k r = record {
  left = delete-IsMap m k r.left;
  right = delete-IsMap m' k r.right;
  lookups = λ j.
      find-delete m k j
      ∙ ap (λ x. if key_eq k j then none else x) (r.lookups j)
      ∙ sym (find-delete m' k j);
}

pub IsReordered-fresh :
    (now : ℕ) (m m' : Streams) → IsReordered m m' → IsReordered (fresh now m) (fresh now m')
IsReordered-fresh now m m' r = record {
  left = fresh-IsMap now m r.left;
  right = fresh-IsMap now m' r.right;
  lookups = λ j.
      fresh-find now m j r.left ∙ ap (kept now) (r.lookups j) ∙ sym (fresh-find now m' j r.right);
}
