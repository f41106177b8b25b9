-- ===== src/Sims/Ewp/Report/Laws.antt =====
-- What the report says of each endpoint, and when it says that all are ready.
use mirror_agent.Base.{
  ◌+◌, ◌/◌, true, Option, none, some, List, [], ◌∷◌, ◌≡◌, refl, inl, inr, arith, ltb, if◌then◌else◌,
  Bytes, length, Bool-cases,
}
use mirror_agent.Go.Strings.{equal}
use mirror_agent.Go.Strings.Equal.{equal_iff}
use mirror_agent.Go.Dict.{Dict, lookup, store, lookup-store}
use mirror_agent.Sims.Http.{Platform}
use mirror_agent.Sims.Ewp.{ValidationEntry, Ewp}
use mirror_agent.Sims.Ewp.Report.{
  PathStats, PathReport, no_stats, add_entry, path_key, or_new, group, count_passed, total_latency,
  rate, complete, complete_all, report,
}

-- The entries of one endpoint, in order.
unfoldable pub of_path : Bytes → List ValidationEntry → List ValidationEntry
of_path k [] = []
of_path k (e ∷ es) = let rest = of_path k es in if equal (path_key e) k then e ∷ rest else rest

-- The statistics of a list of entries, on their own.
unfoldable pub summary : PathStats → List ValidationEntry → PathStats
summary s [] = s
summary s (e ∷ es) = summary (add_entry s e) es

abbrev pub summarised : Option PathStats → List ValidationEntry → Option PathStats
summarised o [] = o
summarised o (e ∷ es) = some (summary (or_new o) (e ∷ es))

summarised-some :
    (s : PathStats) (es : List ValidationEntry) → summarised (some s) es ≡ some (summary s es)
unfolding summary
summarised-some s [] = refl
summarised-some s (e ∷ es) = refl

-- Looking an endpoint up in the groups is summing its own entries up.
group-summary :
    (es : List ValidationEntry) (m : Dict PathStats) (k : Bytes)
    → lookup (group m es) k ≡ summarised (lookup m k) (of_path k es)
unfolding group of_path summary
group-summary [] m k = refl
group-summary (e ∷ es) m k =
    let new = add_entry (or_new (lookup m (path_key e))) e in
    rw (group-summary es (store m (path_key e) new) k, lookup-store m (path_key e) k new)
      (elim (Bool-cases (equal (path_key e) k)) [
        | inl same ↦
            let at_k = (equal_iff (path_key e) k).0 same in
            rw (same, at_k) (summarised-some (add_entry (or_new (lookup m k)) e) (of_path k es))
        | inr other ↦ rw other refl
      ])

pub summary-counts :
    (es : List ValidationEntry) (s : PathStats)
    → ((summary s es).total ≡ s.total + length es)
      × ((summary s es).passed ≡ s.passed + count_passed es)
      × ((summary s es).failed + count_passed es ≡ s.failed + length es)
      × ((summary s es).sum_lat_ms ≡ s.sum_lat_ms + total_latency es)
unfolding summary count_passed total_latency add_entry
summary-counts [] s = omega arith
summary-counts (e ∷ es) s = ground (arith, summary-counts es (add_entry s e))

fresh-counts :
    (es : List ValidationEntry)
    → ((summary no_stats es).total ≡ length es)
      × ((summary no_stats es).passed ≡ count_passed es)
      × ((summary no_stats es).failed + count_passed es ≡ length es)
      × ((summary no_stats es).sum_lat_ms ≡ total_latency es)
fresh-counts es = omega (arith, summary-counts es no_stats)

module _ (p : Platform) where
  abbrev completed : p.Float → Option PathStats → Option PathReport
  completed thresh none = none
  completed thresh (some s) = some (complete p thresh s)

  lookup-complete_all :
      (thresh : p.Float) (m : Dict PathStats) (k : Bytes)
      → lookup (complete_all p thresh m) k ≡ completed thresh (lookup m k)
  unfolding lookup complete_all
  lookup-complete_all thresh [] k = refl
  lookup-complete_all thresh ((j, s) ∷ m) k = elim (Bool-cases (equal j k)) [
    | inl same ↦ rw same refl
    | inr other ↦ rw other (lookup-complete_all thresh m k)
  ]

  -- What the report of an endpoint says of its entries.
  pub record Describes (thresh : p.Float) (es : List ValidationEntry) (r : PathReport)
      : Type 0 where
    pub total : r.stats.total ≡ length es
    pub passed : r.stats.passed ≡ count_passed es
    pub failed : r.stats.failed + count_passed es ≡ length es
    pub latency : r.avg_lat_ms ≡ total_latency es / length es
    pub ready : r.ready_to_cut ≡ p.le thresh (rate p (count_passed es) (length es))

  -- An endpoint without entries is not in the report, any other is, and is described.
  abbrev pub Reported : p.Float → List ValidationEntry → Option PathReport → Type 0
  Reported thresh [] o = o ≡ none
  Reported thresh (e ∷ es) o = (r : PathReport) × (o ≡ some r) × Describes thresh (e ∷ es) r

  complete-Describes :
      (thresh : p.Float) (e : ValidationEntry) (es : List ValidationEntry)
      → Describes thresh (e ∷ es) (complete p thresh (summary no_stats (e ∷ es)))
  unfolding complete
  complete-Describes thresh e es =
      let (t, c, f, l) = fresh-counts (e ∷ es) in
      let some_total : ltb 0 (summary no_stats (e ∷ es)).total ≡ true = ground (arith, t) in
      rw some_total (record {
        total = t;
        passed = c;
        failed = f;
        latency = rw (t, l) refl;
        ready = rw (t, c) refl;
      })

  summarised-Reported :
      (thresh : p.Float) (es : List ValidationEntry)
      → Reported thresh es (completed thresh (summarised none es))
  summarised-Reported thresh [] = refl
  summarised-Reported thresh (e ∷ es) =
      (complete p thresh (summary no_stats (e ∷ es)), refl, complete-Describes thresh e es)

  -- The report has an endpoint exactly if the log has entries of it, and says how many they are, how
  -- many of them passed and failed, their average latency, and whether their pass rate reaches the
  -- threshold.
  pub report-Reported :
      (s : Ewp p) (k : Bytes)
      → Reported s.ready_thresh_pct (of_path k s.validation_log) (lookup (report p s).by_path k)
  unfolding report lookup
  report-Reported s k =
      rw
        (
          lookup-complete_all s.ready_thresh_pct (group [] s.validation_log) k,
          group-summary s.validation_log [] k,
        )
        (summarised-Reported s.ready_thresh_pct (of_path k s.validation_log))
