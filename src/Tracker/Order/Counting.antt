-- ===== src/Tracker/Order/Counting.antt =====
-- How many streams a tick of the reaper removes, in whatever order the map holds them.
use mirror_agent.Base.{
  ℕ, ◌+◌, none, some, [], ◌∷◌, ◌≡◌, refl, sym, ap, ◌∙◌, inl, inr, arith, Bool-cases, length,
  if◌then◌else◌,
}
use mirror_agent.Tracker.Streams.{StreamKey, Stream, Streams, key_eq, find, delete}
use mirror_agent.Tracker.Streams.Laws.{key_eq_iff, find-delete}
use mirror_agent.Tracker.Reaper.{is_stale, stale}
use mirror_agent.Tracker.Reaper.Laws.{IsMap, delete-IsMap}
use mirror_agent.Tracker.Order.{IsReordered}

delete-absent : (m : Streams) (k : StreamKey) → find m k ≡ none → delete m k ≡ m
unfolding find delete
delete-absent [] k h = refl
delete-absent ((j, s) ∷ m) k h = elim (Bool-cases (key_eq j k)) [
  | inl same ↦ cc (rw same at h)
  | inr other ↦ rw other (ap (λ x. (j, s) ∷ x) (delete-absent m k (rw other at h)))
]

unfoldable stale_one : ℕ → Stream → ℕ
stale_one now s = if is_stale now s then 1 else 0

abbrev count_stale : ℕ → Streams → ℕ
count_stale now [] = 0
count_stale now ((k, s) ∷ m) = stale_one now s + count_stale now m

length-stale-count : (now : ℕ) (m : Streams) → length (stale now m) ≡ count_stale now m
unfolding stale stale_one
length-stale-count now [] = refl
length-stale-count now ((k, s) ∷ m) = ground (arith, length-stale-count now m)

-- A stream that is taken out was counted if it was stale.
count_stale-delete :
    (now : ℕ) (m : Streams) (k : StreamKey) (s : Stream)
    → IsMap m
    → find m k ≡ some s
    → count_stale now m ≡ stale_one now s + count_stale now (delete m k)
unfolding find delete
count_stale-delete now [] k s h e = cc e
count_stale-delete now ((j, r) ∷ m) k s (absent, h) e = elim (Bool-cases (key_eq j k)) [
  | inl same ↦
      let found : r ≡ s = cc (rw same at e) in
      let gone : delete m k ≡ m = delete-absent m k (rw ((key_eq_iff j k).0 same) at absent) in
      rw same (
        ap (λ x. stale_one now x + count_stale now m) found
        ∙ ap (λ x. stale_one now s + count_stale now x) (sym gone))
  | inr other ↦ rw other (omega (arith, count_stale-delete now m k s h (rw other at e)))
]

find-head :
    (k j : StreamKey) (s : Stream) (m : Streams)
    → find ((k, s) ∷ m) j ≡ (if key_eq k j then some s else find m j)
unfolding find
find-head k j s m = refl

find-head_own : (k : StreamKey) (s : Stream) (m : Streams) → find ((k, s) ∷ m) k ≡ some s
find-head_own k s m = find-head k k s m ∙ rw ((key_eq_iff k k).1 refl) refl

-- Without its first stream, the other map holds what is left of this one.
IsReordered-tail :
    (k : StreamKey) (s : Stream) (m m' : Streams)
    → IsReordered ((k, s) ∷ m) m'
    → IsReordered m (delete m' k)
IsReordered-tail k s m m' r = record {
  left = r.left.1;
  right = delete-IsMap m' k r.right;
  lookups = λ j. elim (Bool-cases (key_eq k j)) [
    | inl same ↦
        let absent : find m j ≡ none = rw ((key_eq_iff k j).0 same) at r.left.0 in
        let gone : find (delete m' k) j ≡ none = find-delete m' k j ∙ rw same refl in
        absent ∙ sym gone
    | inr other ↦
        let here : find ((k, s) ∷ m) j ≡ find m j = find-head k j s m ∙ rw other refl in
        let there : find (delete m' k) j ≡ find m' j = find-delete m' k j ∙ rw other refl in
        sym here ∙ r.lookups j ∙ sym there
  ];
}

count_stale-reordered :
    (now : ℕ) (m m' : Streams) → IsReordered m m' → count_stale now m ≡ count_stale now m'
unfolding find
count_stale-reordered now [] [] r = refl
count_stale-reordered now [] ((k, s) ∷ m') r =
    let absent : none ≡ some s = r.lookups k ∙ find-head_own k s m' in cc absent
count_stale-reordered now ((k, s) ∷ m) m' r =
    let found : find m' k ≡ some s = sym (r.lookups k) ∙ find-head_own k s m in
    omega (
      arith,
      count_stale-delete now m' k s r.right found,
      count_stale-reordered now m (delete m' k) (IsReordered-tail k s m m' r),
    )

-- The same streams in another order: as many are stale.
pub length-stale :
    (now : ℕ) (m m' : Streams) → IsReordered m m' → length (stale now m) ≡ length (stale now m')
length-stale now m m' r =
    length-stale-count now m ∙ count_stale-reordered now m m' r ∙ sym (length-stale-count now m')
