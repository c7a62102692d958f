-- ===== src/Aggregator/Tables.antt =====
-- internal/aggregator/table.go: one aggregation's key-to-entry map with its bound, its overflow
-- entry and its sweep. Instants are UnixNano values from 0 on.
pub mod Calls
pub mod Bounds
pub mod Births
pub mod Entries
pub mod Ledger
pub mod Adding
pub mod Sweeping
use xflow_exporter.Common.{
  ℕ, ◌+◌, ◌≡◌, Bool, true, false, not, ◌&&◌, Option, none, some, List, [], ◌∷◌, Map, lookup, insert,
  length, if◌then◌else◌, leb, Comparable, add64,
}

pub record Totals : Type 0 where
  pub bytes : ℕ
  pub packets : ℕ
  pub flows : ℕ
  pub bytes_measured : Bool
  pub packets_measured : Bool

abbrev pub zero_totals : Totals
zero_totals = record {
  bytes = 0;
  packets = 0;
  flows = 0;
  bytes_measured = false;
  packets_measured = false;
}

-- `reading`: one record's contribution
pub record Reading : Type 0 where
  pub bytes : ℕ
  pub packets : ℕ
  pub flows : ℕ
  pub bytes_measured : Bool
  pub packets_measured : Bool

pub record Entry : Type 0 where
  pub bytes : ℕ
  pub packets : ℕ
  pub flows : ℕ
  pub last_seen : ℕ
  pub bytes_unmeasured : Bool
  pub packets_unmeasured : Bool
  pub born : ℕ

-- `&entry{born: …}`
abbrev pub fresh_entry : ℕ → Entry
fresh_entry born = record {
  bytes = 0;
  packets = 0;
  flows = 0;
  last_seen = 0;
  bytes_unmeasured = false;
  packets_unmeasured = false;
  born = born;
}

-- `entry.add`
unfoldable pub entry_add : Entry → Reading → ℕ → Entry
entry_add e r now = record e {
  bytes = add64 e.bytes r.bytes;
  packets = add64 e.packets r.packets;
  flows = add64 e.flows r.flows;
  bytes_unmeasured =
      if not r.bytes_measured && not e.bytes_unmeasured then true else e.bytes_unmeasured;
  packets_unmeasured =
      if not r.packets_measured && not e.packets_unmeasured then true else e.packets_unmeasured;
  last_seen = now;
}

-- `entry.totals`
unfoldable pub entry_totals : Entry → Totals
entry_totals e = record {
  bytes = e.bytes;
  packets = e.packets;
  flows = e.flows;
  bytes_measured = not e.bytes_unmeasured;
  packets_measured = not e.packets_unmeasured;
}

pub record Table (K : Type 0) : Type 0 where
  pub entries : Map K Entry
  pub max_entries : ℕ
  pub overflow : Entry
  pub idle_evictions : ℕ
  pub capacity_folds : ℕ
  pub next_born : ℕ

-- `newTable`
abbrev pub new_table : {K : Type 0} → ℕ → Table K
new_table max = record {
  entries = [];
  max_entries = max;
  overflow = fresh_entry 0;
  idle_evictions = 0;
  capacity_folds = 0;
  next_born = 0;
}

pub record EntrySnapshot (K : Type 0) : Type 0 where
  pub key : K
  pub born : ℕ
  pub totals : Totals

module _ {K : Type 0} ⦃e : Comparable K⦄ where
  -- The section of `table.add` under the read lock: a present entry takes the record.
  unfoldable pub add_present : Table K → K → Reading → ℕ → Option (Table K)
  add_present t key r now = elim (lookup key t.entries) [
    | none ↦ none
    | some found ↦ some (record t { entries = insert key (entry_add found r now) t.entries })
  ]

  -- `table.insert`, under the write lock; `none` is its `false`, at the bound.
  unfoldable pub insert_entry : Table K → K → Reading → ℕ → Option (Table K)
  unfolding add_present
  insert_entry t key r now = elim (add_present t key r now) [
    | some t' ↦ some t'
    | none ↦
        if leb t.max_entries (length t.entries)
        then none
        else some (record t {
          next_born = add64 t.next_born 1;
          entries = insert key (entry_add (fresh_entry (add64 t.next_born 1)) r now) t.entries;
        })
  ]

  -- The fold of a record that the bound refused.
  unfoldable pub fold_overflow : Table K → Reading → ℕ → Table K
  fold_overflow t r now = record t {
    capacity_folds = add64 t.capacity_folds 1;
    overflow = entry_add t.overflow r now;
  }

  -- `table.add`
  unfoldable pub add : Table K → K → Reading → ℕ → Table K
  unfolding insert_entry fold_overflow add_present
  add t key r now = elim (add_present t key r now) [
    | some t' ↦ t'
    | none ↦ elim (insert_entry t key r now) [ some t' ↦ t' | none ↦ fold_overflow t r now ]
  ]

-- What one round of the loop in `sweep` adds to the ledger.
abbrev drop_totals : Entry → Totals → Totals
drop_totals e d = record d {
  bytes = add64 d.bytes e.bytes;
  packets = add64 d.packets e.packets;
  flows = add64 d.flows e.flows;
}

module _ {K : Type 0} where
  -- The loop of `sweep`: what stays, how many went and what they carried.
  unfoldable pub sweep_loop : ℕ → Map K Entry → ℕ → Totals → Map K Entry × ℕ × Totals
  sweep_loop cutoff [] evicted dropped = ([], evicted, dropped)
  sweep_loop cutoff ((key, e) ∷ rest) evicted dropped = elim (leb cutoff e.last_seen) [
    | true ↦ let (kept, n, d) = sweep_loop cutoff rest evicted dropped in ((key, e) ∷ kept, n, d)
    | false ↦ sweep_loop cutoff rest (evicted + 1) (drop_totals e dropped)
  ]

  -- `table.sweep`
  unfoldable pub sweep : Table K → ℕ → Table K × ℕ × Totals
  unfolding sweep_loop
  sweep t cutoff =
      let (kept, evicted, dropped) = sweep_loop cutoff t.entries 0 zero_totals in
      (
        record t { entries = kept; idle_evictions = add64 t.idle_evictions evicted },
        evicted,
        dropped,
      )

  -- The loop of `snapshot`
  unfoldable pub snapshot_entries : Map K Entry → List (EntrySnapshot K)
  unfolding entry_totals
  snapshot_entries [] = []
  snapshot_entries ((key, e) ∷ rest) =
      record { key = key; born = e.born; totals = entry_totals e } ∷ snapshot_entries rest

  -- `table.snapshot`
  unfoldable pub snapshot : Table K → List (EntrySnapshot K) × Totals
  unfolding snapshot_entries entry_totals
  snapshot t = (snapshot_entries t.entries, entry_totals t.overflow)

  -- `table.size`
  unfoldable pub size : Table K → ℕ
  size t = length t.entries

  -- `table.stats`
  unfoldable pub stats : Table K → ℕ × ℕ
  stats t = (t.idle_evictions, t.capacity_folds)
