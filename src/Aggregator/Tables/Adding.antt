-- ===== src/Aggregator/Tables/Adding.antt =====
-- What `table.add` of internal/aggregator/table.go does to the entries, the bound and the overflow.
use xflow_exporter.Common.{
  Option-cases, Bool-cases, inl, inr, ℕ, ◌≡◌, ◌≤◌, Bool, true, false, not, ◌||◌, Option, none, some,
  Map, lookup, insert, length, if◌then◌else◌, leb, Comparable, ◌==◌, add64, is_some, lookup-insert,
  length-insert, Distinct, Distinct-insert, arith, refl,
}
use xflow_exporter.Aggregator.Tables.{
  Table, Entry, fold_overflow, Reading, fresh_entry, entry_add, add,
}

-- The entry that a key has after a record, read off the table before it.
abbrev pub entry_after : Option Entry → Bool → ℕ → Reading → ℕ → Option Entry
entry_after (some found) full born r now = some (entry_add found r now)
entry_after none true born r now = none
entry_after none false born r now = some (entry_add (fresh_entry born) r now)

abbrev pub is_full : {K : Type 0} → Table K → Bool
is_full t = leb t.max_entries (length t.entries)

module _ {K : Type 0} ⦃e : Comparable K⦄ where
  -- a key with no entry reads the same either way
  cases-none :
      (m : Map K Entry) (k j : K)
      → lookup k m ≡ none
      → lookup j m ≡ (if k == j then none else lookup j m)
  cases-none m k j h = elim (Bool-cases (k == j)) [
    | inl same ↦ rw (same, ← (e.equals_iff k j).0 same) h
    | inr other ↦ rw other
  ]

  -- The three branches of `add` as equations of tables.
  pub add_known :
      (t : Table K) (k : K) (r : Reading) (now : ℕ) {found : Entry}
      → lookup k t.entries ≡ some found
      → add t k r now ≡ record t { entries = insert k (entry_add found r now) t.entries }
  unfolding add
  add_known t k r now h = ground arith

  pub add_new :
      (t : Table K) (k : K) (r : Reading) (now : ℕ)
      → lookup k t.entries ≡ none
      → is_full t ≡ false
      → add t k r now ≡ record t {
        next_born = add64 t.next_born 1;
        entries = insert k (entry_add (fresh_entry (add64 t.next_born 1)) r now) t.entries;
      }
  unfolding add
  add_new t k r now h room = ground arith

  pub add_refused :
      (t : Table K) (k : K) (r : Reading) (now : ℕ)
      → lookup k t.entries ≡ none
      → is_full t ≡ true
      → add t k r now ≡ fold_overflow t r now
  unfolding add
  add_refused t k r now h full = ground arith

  -- Adding a record to a table, on every branch: a present key accumulates; a new key under the
  -- bound opens an entry stamped with the next birth number; a new key at the bound opens none.
  -- No other key's entry changes. The overflow entry and the fold counter move exactly when a new
  -- key meets the bound, and the bound itself never moves.
  pub add_effect :
      (t : Table K) (k j : K) (r : Reading) (now : ℕ)
      → (lookup j (add t k r now).entries ≡ (
          if k == j
          then entry_after (lookup k t.entries) (is_full t) (add64 t.next_born 1) r now
          else lookup j t.entries))
        × ((add t k r now).overflow ≡ (
            if is_some (lookup k t.entries) || not (is_full t)
            then t.overflow
            else entry_add t.overflow r now))
        × ((add t k r now).capacity_folds ≡ (
            if is_some (lookup k t.entries) || not (is_full t)
            then t.capacity_folds
            else add64 t.capacity_folds 1))
        × ((add t k r now).max_entries ≡ t.max_entries)
  unfolding fold_overflow
  add_effect t k j r now = elim (Option-cases (lookup k t.entries)) [
    | inr (found, h) ↦
        rw (add_known t k r now h, h)
          (lookup-insert k j (entry_add found r now) t.entries, refl, refl, refl)
    | inl h ↦ elim (Bool-cases (is_full t)) [
      | inl full ↦
          rw (add_refused t k r now h full, h, full) (cases-none t.entries k j h, refl, refl, refl)
      | inr room ↦
          rw (add_new t k r now h room, h, room) (lookup-insert k j _ t.entries, refl, refl, refl)
    ]
  ]

  -- The keys stay distinct, and the table never holds more entries than its bound.
  pub add-IsBounded :
      (t : Table K) (k : K) (r : Reading) (now : ℕ)
      → Distinct t.entries
      → length t.entries ≤ t.max_entries
      → Distinct (add t k r now).entries
        × (length (add t k r now).entries ≤ (add t k r now).max_entries)
  unfolding fold_overflow
  add-IsBounded t k r now d b = elim (Option-cases (lookup k t.entries)) [
    | inr (found, h) ↦ rw (add_known t k r now h) (
      Distinct-insert k (entry_add found r now) t.entries d,
      ground (arith, length-insert k (entry_add found r now) t.entries),
    )
    | inl h ↦ elim (Bool-cases (is_full t)) [
      | inl full ↦ rw (add_refused t k r now h full) (d, b)
      | inr room ↦ rw (add_new t k r now h room) (
        Distinct-insert k _ t.entries d,
        ground (
          arith,
          length-insert k (entry_add (fresh_entry (add64 t.next_born 1)) r now) t.entries,
        ),
      )
    ]
  ]
