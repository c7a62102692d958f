-- ===== src/Aggregator/Tables/Entries.antt =====
-- One entry of internal/aggregator/table.go over the records folded into it.
use xflow_exporter.Common.{
  ℕ, ◌∙◌, ◌<◌, ◌+◌, ◌%◌, ◌^◌, ◌≡◌, Bool, true, not, ◌&&◌, List, [], ◌∷◌, arith, refl,
}
use xflow_exporter.Aggregator.Tables.{Entry, Reading, entry_add, entry_totals, fresh_entry}
use xflow_exporter.Aggregator.Tables.Ledger.{
  Counter, of_entry, of_totals, of_reading, of_entry-entry_add, of_entry-fresh_entry, bytes,
}

-- The readings are folded in order, each with its instant.
pub entry_fold : Entry → List (Reading × ℕ) → Entry
entry_fold e [] = e
entry_fold e ((r, now) ∷ rest) = entry_fold (entry_add e r now) rest

pub sum_of : Counter → List (Reading × ℕ) → ℕ
sum_of c [] = 0
sum_of c ((r, now) ∷ rest) = of_reading c r + sum_of c rest

pub all_bytes_measured : List (Reading × ℕ) → Bool
all_bytes_measured [] = true
all_bytes_measured ((r, now) ∷ rest) = r.bytes_measured && all_bytes_measured rest

pub all_packets_measured : List (Reading × ℕ) → Bool
all_packets_measured [] = true
all_packets_measured ((r, now) ∷ rest) = r.packets_measured && all_packets_measured rest

fold_counters :
    (c : Counter) (e : Entry) (rs : List (Reading × ℕ))
    → of_entry c e < 2 ^ 64
    → of_entry c (entry_fold e rs) ≡ (of_entry c e + sum_of c rs) % 2 ^ 64
unfolding entry_fold sum_of
fold_counters c e [] h = omega arith
fold_counters c e ((r, now) ∷ rs) h =
    omega (arith, fold_counters c (entry_add e r now) rs, of_entry-entry_add c e r now)

fold_latches :
    (e : Entry) (rs : List (Reading × ℕ))
    → ((entry_fold e rs).bytes_unmeasured ≡ not (not e.bytes_unmeasured && all_bytes_measured rs))
      × ((entry_fold e rs).packets_unmeasured
          ≡ not (not e.packets_unmeasured && all_packets_measured rs))
unfolding entry_fold all_bytes_measured all_packets_measured entry_add
fold_latches e [] = ground arith
fold_latches e ((r, now) ∷ rs) = ground (arith, fold_latches (entry_add e r now) rs)

of_totals-entry_totals : (c : Counter) (e : Entry) → of_totals c (entry_totals e) ≡ of_entry c e
unfolding entry_totals
of_totals-entry_totals bytes e = refl
of_totals-entry_totals _ e = refl

-- An entry opened by the first of its records publishes, for each counter, the sum of what they
-- carried modulo 2^64, and calls a count measured exactly when every one of them carried it: the
-- latch never clears.
pub entry_totals-fold :
    (c : Counter) (born : ℕ) (rs : List (Reading × ℕ))
    → (of_totals c (entry_totals (entry_fold (fresh_entry born) rs)) ≡ sum_of c rs % 2 ^ 64)
      × ((entry_totals (entry_fold (fresh_entry born) rs)).bytes_measured ≡ all_bytes_measured rs)
      × ((entry_totals (entry_fold (fresh_entry born) rs)).packets_measured
          ≡ all_packets_measured rs)
unfolding entry_totals
entry_totals-fold c born rs =
    let e = fresh_entry born in
    (
      of_totals-entry_totals c (entry_fold e rs)
          ∙ omega (arith, fold_counters c e rs, of_entry-fresh_entry c born),
      ground (arith, fold_latches e rs),
      ground (arith, fold_latches e rs),
    )
