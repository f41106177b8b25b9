-- ===== src/Sims/Ewp/Report.antt =====
-- ewp-sim/main.go, validationReportHandler: what it computes from the log and the threshold. (The
-- constant text of `comparison_scope` is left out.)
pub mod Laws
pub mod Ready
use mirror_agent.Base.{
  ℕ, zero, suc, ◌+◌, ◌-◌, ◌/◌, Bool, true, false, ◌&&◌, Option, none, some, List, [], ◌∷◌, ◌++◌,
  ltb, if◌then◌else◌, Bytes, codes, length,
}
use mirror_agent.Go.Dict.{Dict, lookup, store}
use mirror_agent.Sims.Http.{Platform}
use mirror_agent.Sims.Ewp.{ValidationEntry, Ewp}

-- pathStats, as the loop over the entries fills it.
pub record PathStats : Type 0 where
  pub total : ℕ
  pub passed : ℕ
  pub failed : ℕ
  pub response_headers : Dict Bytes
  pub sum_lat_ms : ℕ

-- &pathStats{...}
abbrev pub no_stats : PathStats
no_stats = record { total = 0; passed = 0; failed = 0; response_headers = []; sum_lat_ms = 0 }

-- The fields that are computed once all entries are counted.
pub record PathReport : Type 0 where
  pub stats : PathStats
  pub pass_rate_pct : Bytes
  pub avg_lat_ms : ℕ
  pub ready_to_cut : Bool

unfoldable pub store_all : Dict Bytes → Dict Bytes → Dict Bytes
store_all d [] = d
store_all d ((k, v) ∷ h) = store_all (store d k v) h

unfoldable pub add_entry : PathStats → ValidationEntry → PathStats
add_entry s e = record {
  total = s.total + 1;
  passed = if e.passed then s.passed + 1 else s.passed;
  failed = if e.passed then s.failed else s.failed + 1;
  response_headers = store_all s.response_headers e.response_headers;
  sum_lat_ms = s.sum_lat_ms + e.latency_ms;
}

unfoldable pub path_key : ValidationEntry → Bytes
path_key e = e.method ++ (codes " " ++ e.path)

abbrev pub or_new : Option PathStats → PathStats
or_new none = no_stats
or_new (some s) = s

-- The loop over the entries, on byPath.
unfoldable pub group : Dict PathStats → List ValidationEntry → Dict PathStats
group m [] = m
group m (e ∷ es) = group (store m (path_key e) (add_entry (or_new (lookup m (path_key e))) e)) es

unfoldable pub count_passed : List ValidationEntry → ℕ
count_passed [] = 0
count_passed (e ∷ es) = let rest = count_passed es in if e.passed then suc rest else rest

unfoldable pub total_latency : List ValidationEntry → ℕ
total_latency [] = 0
total_latency (e ∷ es) = e.latency_ms + total_latency es

module _ (p : Platform) where
  unfoldable pub safe_div : ℕ → ℕ → p.Float
  safe_div a zero = p.of_int 0
  safe_div a (suc b) = p.div (p.of_int a) (p.of_int (suc b))

  -- The pass rate in percent.
  unfoldable pub rate : ℕ → ℕ → p.Float
  rate passed total = p.mul (safe_div passed total) (p.of_int 100)

  unfoldable pub complete : p.Float → PathStats → PathReport
  complete thresh s =
      if ltb 0 s.total
      then record {
        stats = s;
        pass_rate_pct = p.percent (rate s.passed s.total);
        avg_lat_ms = s.sum_lat_ms / s.total;
        ready_to_cut = p.le thresh (rate s.passed s.total);
      }
      else record { stats = s; pass_rate_pct = []; avg_lat_ms = 0; ready_to_cut = false }

  unfoldable pub complete_all : p.Float → Dict PathStats → Dict PathReport
  complete_all thresh [] = []
  complete_all thresh ((k, s) ∷ m) = (k, complete thresh s) ∷ complete_all thresh m

  unfoldable pub all_ready : Dict PathReport → Bool
  all_ready [] = true
  all_ready ((k, r) ∷ m) = r.ready_to_cut && all_ready m

  pub record Report : Type 0 where
    pub total : ℕ
    pub passed : ℕ
    pub failed : ℕ
    pub pass_rate : Bytes
    pub avg_latency_ms : ℕ
    pub ready_threshold_pct : Bytes
    pub ready_to_cut : Bool
    pub by_path : Dict PathReport
    pub entries : List ValidationEntry

  abbrev average : ℕ → ℕ → ℕ
  average sum zero = 0
  average sum (suc n) = sum / suc n

  unfoldable pub report : Ewp p → Report
  report s =
      let log = s.validation_log in
      let total = length log in
      let passed = count_passed log in
      let by_path = complete_all s.ready_thresh_pct (group [] log) in
      let ready = ltb 0 (length by_path) && all_ready by_path in
      record {
        total = total;
        passed = passed;
        failed = total - passed;
        pass_rate = p.percent (rate passed total);
        avg_latency_ms = average (total_latency log) total;
        ready_threshold_pct = p.percent s.ready_thresh_pct;
        ready_to_cut = ready && ltb 0 total;
        by_path = by_path;
        entries = log;
      }
