-- ===== src/Aggregator/Tables/Ledger.antt =====
-- The ledger of internal/aggregator/table.go: the entries, the overflow entry and what the sweeps
-- returned.
use xflow_exporter.Common.{
  ℕ, ◌+◌, ◌%◌, ◌^◌, ◌≡◌, List, [], ◌∷◌, Map, lookup, Comparable, add64, arith, refl, Bool-cases,
  Option-cases, inl, inr, sum_by, sum_by-insert,
}
use xflow_exporter.Aggregator.Tables.{
  Table, Entry, Totals, Reading, sweep, sweep_loop, drop_totals, zero_totals, add, entry_add,
  fresh_entry, fold_overflow,
}
use xflow_exporter.Aggregator.Tables.Adding.{add_known, add_new, add_refused, is_full}
use xflow_exporter.Aggregator.Tables.Calls.{Call, adding, sweeping, call, calls}

-- The three counters.
pub data Counter : Type 0 where
  bytes packets flows : Counter

abbrev pub of_entry : Counter → Entry → ℕ
of_entry bytes e = e.bytes
of_entry packets e = e.packets
of_entry flows e = e.flows

abbrev pub of_totals : Counter → Totals → ℕ
of_totals bytes t = t.bytes
of_totals packets t = t.packets
of_totals flows t = t.flows

abbrev pub of_reading : Counter → Reading → ℕ
of_reading bytes r = r.bytes
of_reading packets r = r.packets
of_reading flows r = r.flows

pub of_entry-entry_add :
    (c : Counter) (e : Entry) (r : Reading) (now : ℕ)
    → of_entry c (entry_add e r now) ≡ add64 (of_entry c e) (of_reading c r)
unfolding entry_add
of_entry-entry_add bytes e r now = refl
of_entry-entry_add _ e r now = refl

pub of_entry-fresh_entry : (c : Counter) (born : ℕ) → of_entry c (fresh_entry born) ≡ 0
of_entry-fresh_entry bytes born = refl
of_entry-fresh_entry _ born = refl

of_totals-drop_totals :
    (c : Counter) (e : Entry) (d : Totals)
    → of_totals c (drop_totals e d) ≡ add64 (of_totals c d) (of_entry c e)
of_totals-drop_totals bytes e d = refl
of_totals-drop_totals _ e d = refl

of_totals-zero_totals : (c : Counter) → of_totals c zero_totals ≡ 0
of_totals-zero_totals bytes = refl
of_totals-zero_totals _ = refl

-- What a table carries: its entries and its overflow entry.
abbrev pub carried : {K : Type 0} → Counter → Table K → ℕ
carried c t = sum_by (of_entry c) t.entries + of_entry c t.overflow

sweep_loop_ledger :
    {K : Type 0} (c : Counter) (cutoff : ℕ) (m : Map K Entry) (n : ℕ) (d : Totals)
    → (sum_by (of_entry c) (sweep_loop cutoff m n d).0 + of_totals c (sweep_loop cutoff m n d).2)
        % 2 ^ 64
      ≡ (sum_by (of_entry c) m + of_totals c d) % 2 ^ 64
unfolding sweep_loop
sweep_loop_ledger c cutoff [] n d = refl
sweep_loop_ledger c cutoff ((k, v) ∷ m) n d = ground (
  arith,
  sweep_loop_ledger c cutoff m n d,
  sweep_loop_ledger c cutoff m (n + 1) (drop_totals v d),
  of_totals-drop_totals c v d,
)

sweep_ledger :
    {K : Type 0} (c : Counter) (t : Table K) (cutoff : ℕ)
    → (carried c (sweep t cutoff).0 + of_totals c (sweep t cutoff).2) % 2 ^ 64
      ≡ carried c t % 2 ^ 64
unfolding sweep
sweep_ledger c t cutoff =
    omega (arith, sweep_loop_ledger c cutoff t.entries 0 zero_totals, of_totals-zero_totals c)

module _ {K : Type 0} ⦃e : Comparable K⦄ where
  pub add_ledger :
      (c : Counter) (t : Table K) (k : K) (r : Reading) (now : ℕ)
      → carried c (add t k r now) % 2 ^ 64 ≡ (carried c t + of_reading c r) % 2 ^ 64
  unfolding fold_overflow
  add_ledger c t k r now = elim (Option-cases (lookup k t.entries)) [
    | inr (found, h) ↦ rw (add_known t k r now h) (
        ground (
          arith,
          sum_by-insert (of_entry c) k (entry_add found r now) t.entries,
          of_entry-entry_add c found r now,
        ))
    | inl h ↦ elim (Bool-cases (is_full t)) [
      | inl full ↦
          rw (add_refused t k r now h full) (omega (arith, of_entry-entry_add c t.overflow r now))
      | inr room ↦
          let born = fresh_entry (add64 t.next_born 1) in
          rw (add_new t k r now h room) (
            ground (
              arith,
              sum_by-insert (of_entry c) k (entry_add born r now) t.entries,
              of_entry-entry_add c born r now,
              of_entry-fresh_entry c (add64 t.next_born 1),
            ))
    ]
  ]

module _ {K : Type 0} ⦃e : Comparable K⦄ where
  -- What the run's records bring, and what its sweeps return.
  pub ingested : Counter → List (Call K) → ℕ
  ingested c [] = 0
  ingested c (adding k r now ∷ cs) = of_reading c r + ingested c cs
  ingested c (sweeping cutoff ∷ cs) = ingested c cs

  pub swept : Counter → Table K → List (Call K) → ℕ
  unfolding call
  swept c t [] = 0
  swept c t (adding k r now ∷ cs) = swept c (add t k r now) cs
  swept c t (sweeping cutoff ∷ cs) = of_totals c (sweep t cutoff).2 + swept c (sweep t cutoff).0 cs

  -- Over any run of records and sweeps, each counter's entries, overflow and sweep returns add up
  -- to what the table carried before and the records of the run, modulo 2^64: no record is lost and
  -- none is counted twice.
  pub calls_ledger :
      (c : Counter) (t : Table K) (run : List (Call K))
      → (carried c (calls t run) + swept c t run) % 2 ^ 64 ≡ (carried c t + ingested c run) % 2 ^ 64
  unfolding calls swept ingested
  calls_ledger c t [] = refl
  calls_ledger c t (adding k r now ∷ run) =
      omega (arith, calls_ledger c (add t k r now) run, add_ledger c t k r now)
  calls_ledger c t (sweeping cutoff ∷ run) =
      omega (arith, calls_ledger c (sweep t cutoff).0 run, sweep_ledger c t cutoff)
