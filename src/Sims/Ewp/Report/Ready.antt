-- ===== src/Sims/Ewp/Report/Ready.antt =====
-- A log in which every entry passed.
use mirror_agent.Base.{
  ℕ, zero, suc, ◌+◌, ◌<◌, Bool, true, false, ◌&&◌, List, [], ◌∷◌, ◌≡◌, refl, sym, ap, inl, inr,
  arith, ltb, Bytes, length, Bool-cases, All, lt→ltb,
}
use mirror_agent.Go.Strings.{equal}
use mirror_agent.Go.Dict.{Dict, lookup, store}
use mirror_agent.Sims.Http.{Platform}
use mirror_agent.Sims.Ewp.{ValidationEntry, Ewp}
use mirror_agent.Sims.Ewp.Report.{
  PathStats, add_entry, path_key, or_new, group, count_passed, safe_div, rate, complete,
  complete_all, all_ready, report,
}

and_twice : (b : Bool) → ((b && true) && b) ≡ b
and_twice true = refl
and_twice false = refl

abbrev pub Passed : ValidationEntry → Type 0
Passed e = e.passed ≡ true

-- Something was counted, and all of it passed.
abbrev Full : PathStats → Type 0
Full s = (0 < s.total) × (s.passed ≡ s.total)

abbrev AllFull : Dict PathStats → Type 0
AllFull = All (λ entry. Full entry.1)

add_entry-Full :
    (m : Dict PathStats) (k : Bytes) (e : ValidationEntry)
    → AllFull m
    → Passed e
    → Full (add_entry (or_new (lookup m k)) e)
unfolding lookup add_entry
add_entry-Full [] k e full passed = rw passed (omega arith, refl)
add_entry-Full ((j, s) ∷ m) k e full passed = elim (Bool-cases (equal j k)) [
  | inl same ↦ rw (same, passed) (omega arith, ap (λ n. n + 1) full.0.1)
  | inr other ↦ rw other (add_entry-Full m k e full.1 passed)
]

store-AllFull :
    (m : Dict PathStats) (k : Bytes) (s : PathStats) → AllFull m → Full s → AllFull (store m k s)
unfolding store
store-AllFull [] k s full new = (new, tt)
store-AllFull ((j, r) ∷ m) k s full new = elim (Bool-cases (equal j k)) [
  | inl same ↦ rw same (new, full.1)
  | inr other ↦ rw other (full.0, store-AllFull m k s full.1 new)
]

group-AllFull :
    (es : List ValidationEntry) (m : Dict PathStats)
    → AllFull m
    → All Passed es
    → AllFull (group m es)
unfolding group
group-AllFull [] m full passed = full
group-AllFull (e ∷ es) m full passed =
    group-AllFull es _
      (store-AllFull m (path_key e) _ full (add_entry-Full m (path_key e) e full passed.0)) passed.1

length-store : (m : Dict PathStats) (k : Bytes) (s : PathStats) → 0 < length (store m k s)
unfolding store
length-store [] k s = omega arith
length-store ((j, r) ∷ m) k s = ground arith

length-group :
    (es : List ValidationEntry) (m : Dict PathStats) → 0 < length m → 0 < length (group m es)
unfolding group
length-group [] m h = h
length-group (e ∷ es) m h = length-group es _ (length-store m (path_key e) _)

count_passed-Passed : (es : List ValidationEntry) → All Passed es → count_passed es ≡ length es
unfolding count_passed
count_passed-Passed [] passed = refl
count_passed-Passed (e ∷ es) passed = rw passed.0 (ap suc (count_passed-Passed es passed.1))

module _ (p : Platform) where
  -- n / n is 1, and 1 * 100 is 100, also in floating point.
  abbrev pub DividesOut : Type 0
  DividesOut =
      (n : ℕ) → p.mul (p.div (p.of_int (suc n)) (p.of_int (suc n))) (p.of_int 100) ≡ p.of_int 100

  length-complete_all :
      (thresh : p.Float) (m : Dict PathStats) → length (complete_all p thresh m) ≡ length m
  unfolding complete_all
  length-complete_all thresh [] = refl
  length-complete_all thresh ((k, s) ∷ m) = ap suc (length-complete_all thresh m)

  rate-full :
      DividesOut
      → (passed total : ℕ) → 0 < total
      → passed ≡ total
      → rate p passed total ≡ p.of_int 100
  unfolding rate safe_div
  rate-full law passed zero h e = absurd (omega arith)
  rate-full law passed (suc n) h e = rw e (law n)

  all_ready-full :
      DividesOut
      → (thresh : p.Float) (m : Dict PathStats) → p.le thresh (p.of_int 100) ≡ true
      → AllFull m
      → all_ready p (complete_all p thresh m) ≡ true
  unfolding all_ready complete_all complete
  all_ready-full law thresh [] h full = refl
  all_ready-full law thresh ((k, s) ∷ m) h full =
      let some_total : ltb 0 s.total ≡ true = ground (arith, full.0.0) in
      rw (some_total, rate-full law s.passed s.total full.0.0 full.0.1, h)
        (all_ready-full law thresh m h full.1)

  any_endpoint :
      (thresh : p.Float) (es : List ValidationEntry)
      → ltb 0 (length (complete_all p thresh (group [] es))) ≡ ltb 0 (length es)
  unfolding complete_all group
  any_endpoint thresh [] = refl
  any_endpoint thresh (e ∷ es) =
      let m = store [] (path_key e) (add_entry (or_new (lookup [] (path_key e))) e) in
      let some_group = length-group es m (length-store [] (path_key e) _) in
      rw (length-complete_all thresh (group m es), lt→ltb 0 (length (group m es)) some_group)
        (sym (lt→ltb 0 (suc (length es)) (omega arith)))

  -- If every logged entry passed and the threshold is at most 100, the report has no failure, and is
  -- ready to cut as soon as the log has an entry.
  pub report-Passed :
      DividesOut
      → (s : Ewp p) → p.le s.ready_thresh_pct (p.of_int 100) ≡ true
      → All Passed s.validation_log
      → ((report p s).failed ≡ 0) × ((report p s).ready_to_cut ≡ ltb 0 (length s.validation_log))
  unfolding report
  report-Passed law s h passed =
      let log = s.validation_log in
      let ready =
        all_ready-full law s.ready_thresh_pct (group [] log) h (group-AllFull log [] tt passed) in
      (
        omega (arith, count_passed-Passed log passed),
        rw (any_endpoint s.ready_thresh_pct log, ready) (and_twice (ltb 0 (length log))),
      )
