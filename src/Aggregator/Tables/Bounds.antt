-- ===== src/Aggregator/Tables/Bounds.antt =====
-- The entry bound of internal/aggregator/table.go over whole runs.
use xflow_exporter.Common.{ℕ, ◌≤◌, List, [], ◌∷◌, length, Comparable, Distinct, arith}
use xflow_exporter.Aggregator.Tables.{Table, sweep}
use xflow_exporter.Aggregator.Tables.Adding.{add-IsBounded}
use xflow_exporter.Aggregator.Tables.Sweeping.{Distinct-sweep, length-sweep}
use xflow_exporter.Aggregator.Tables.Calls.{Call, adding, sweeping, call, calls}

-- Distinct keys, and no more entries than the bound.
pub record IsBounded {K : Type 0} ⦃e : Comparable K⦄ (t : Table K) : Type 0 where
  pub distinct : Distinct t.entries
  pub within : length t.entries ≤ t.max_entries

module _ {K : Type 0} ⦃e : Comparable K⦄ where
  bound-sweep :
      (t : Table K) (cutoff : ℕ)
      → length t.entries ≤ t.max_entries
      → length (sweep t cutoff).0.entries ≤ (sweep t cutoff).0.max_entries
  unfolding sweep
  bound-sweep t cutoff h = omega (arith, length-sweep t cutoff)

  pub call-IsBounded : (t : Table K) (c : Call K) → IsBounded t → IsBounded (call t c)
  unfolding call
  call-IsBounded t (adding k r now) h =
      let (d, w) = add-IsBounded t k r now h.distinct h.within in
      record { distinct = d; within = w }
  call-IsBounded t (sweeping cutoff) h = record {
    distinct = Distinct-sweep t cutoff h.distinct;
    within = bound-sweep t cutoff h.within;
  }

  -- From a bounded table, whatever the records and the sweeps, the table stays within its bound and
  -- holds no key twice.
  pub calls-IsBounded : (t : Table K) (run : List (Call K)) → IsBounded t → IsBounded (calls t run)
  unfolding calls
  calls-IsBounded t [] h = h
  calls-IsBounded t (c ∷ run) h = calls-IsBounded (call t c) run (call-IsBounded t c h)
