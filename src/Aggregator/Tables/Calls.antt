-- ===== src/Aggregator/Tables/Calls.antt =====
-- Runs of calls on one table of internal/aggregator/table.go.
use xflow_exporter.Common.{ℕ, List, [], ◌∷◌, Comparable}
use xflow_exporter.Aggregator.Tables.{Table, Reading, add, sweep}

-- One call on a table: a record under a key at an instant, or a sweep with its cutoff.
pub data Call (K : Type 0) : Type 0 where
  adding : K → Reading → ℕ → Call K
  sweeping : ℕ → Call K

module _ {K : Type 0} ⦃e : Comparable K⦄ where
  -- The table after one call, and after a run of calls.
  unfoldable pub call : Table K → Call K → Table K
  call t (adding k r now) = add t k r now
  call t (sweeping cutoff) = (sweep t cutoff).0

  unfoldable pub calls : Table K → List (Call K) → Table K
  unfolding call
  calls t [] = t
  calls t (c ∷ cs) = calls (call t c) cs
