-- ===== src/Aggregator/Tables/Births.antt =====
-- The birth numbers of the entries of internal/aggregator/table.go.
use xflow_exporter.Common.{
  ℕ, ◌+◌, ◌^◌, ◌≡◌, ◌≤◌, ◌<◌, List, [], ◌∷◌, length, Comparable, ◌==◌, Distinct, arith, lookup,
  some, none, Option, if◌then◌else◌, is_some, ◌||◌, add64, Option-cases, Bool-cases, inl, inr, refl,
}
use xflow_exporter.Aggregator.Tables.{Table, Reading, Entry, add, sweep, entry_add, fold_overflow}
use xflow_exporter.Aggregator.Tables.Adding.{add_known, add_new, add_refused, add_effect, is_full}
use xflow_exporter.Aggregator.Tables.Sweeping.{sweep_effect, kept_entry}
use xflow_exporter.Aggregator.Tables.Bounds.{IsBounded, call-IsBounded}
use xflow_exporter.Aggregator.Tables.Calls.{Call, adding, sweeping, call, calls}

abbrev pub birth : Option Entry → Option ℕ
birth none = none
birth (some e) = some e.born

module _ {K : Type 0} ⦃e : Comparable K⦄ where
  abbrev pub born_of : Table K → K → Option ℕ
  born_of t k = birth (lookup k t.entries)

-- Every entry has a birth number from 1 to the last one given, and no two keys share one.
pub record IsStamped {K : Type 0} ⦃e : Comparable K⦄ (t : Table K) : Type 0 where
  pub given : (k : K) (n : ℕ) → born_of t k ≡ some n → (0 < n) × (n ≤ t.next_born)
  pub unique : (j k : K) (n : ℕ) → born_of t j ≡ some n → born_of t k ≡ some n → j ≡ k

module _ {K : Type 0} ⦃e : Comparable K⦄ where
  -- The birth number that a key has after a record.
  abbrev birth_after : Table K → K → K → Option ℕ
  birth_after t k j =
      if k == j
      then (if is_some (lookup k t.entries)
          then born_of t k
          else if is_full t
          then none
          else some (add64 t.next_born 1))
      else born_of t j

  born_of-add :
      (t : Table K) (k : K) (r : Reading) (now : ℕ) (j : K)
      → born_of (add t k r now) j ≡ birth_after t k j
  unfolding entry_add
  born_of-add t k r now j = ground (arith, add_effect t k j r now)

  next_born-add :
      (t : Table K) (k : K) (r : Reading) (now : ℕ)
      → (add t k r now).next_born
        ≡ (if is_some (lookup k t.entries) || is_full t then t.next_born else add64 t.next_born 1)
  unfolding fold_overflow
  next_born-add t k r now = elim (Option-cases (lookup k t.entries)) [
    | inr (found, h) ↦ rw (add_known t k r now h, h)
    | inl h ↦ elim (Bool-cases (is_full t)) [
      | inl full ↦ rw (add_refused t k r now h full, h, full)
      | inr room ↦ rw (add_new t k r now h room, h, room)
    ]
  ]

  add-IsStamped :
      (t : Table K) (k : K) (r : Reading) (now : ℕ)
      → t.next_born + 1 < 2 ^ 64
      → IsStamped t
      → IsStamped (add t k r now)
  add-IsStamped t k r now small h = record {
    given = λ j n p.
        ground (arith, born_of-add t k r now j, next_born-add t k r now, h.given j n, h.given k n);
    unique = λ i j n p q. ground (
      arith,
      born_of-add t k r now i,
      born_of-add t k r now j,
      e.equals_iff k i,
      e.equals_iff k j,
      h.given i n,
      h.given j n,
      h.unique i j n,
      h.unique k j n,
      h.unique i k n,
    );
  }

  sweep-IsStamped :
      (t : Table K) (cutoff : ℕ) → Distinct t.entries → IsStamped t → IsStamped (sweep t cutoff).0
  sweep-IsStamped t cutoff d h = record {
    given = λ j n p. ground (arith, born_of-sweep j n p, h.given j n, next_born-sweep);
    unique = λ i j n p q. h.unique i j n (born_of-sweep i n p) (born_of-sweep j n q);
  }
    where
      born_of-sweep : (j : K) (n : ℕ) → born_of (sweep t cutoff).0 j ≡ some n → born_of t j ≡ some n
      born_of-sweep j n p = kept (lookup j t.entries) (rw ((sweep_effect t cutoff j d).0) at p)
        where
          kept : (o : Option Entry) → birth (kept_entry cutoff o) ≡ some n → birth o ≡ some n
          kept o h = ground arith

      next_born-sweep : (sweep t cutoff).0.next_born ≡ t.next_born
      next_born-sweep = unfold sweep in refl

  -- From a bounded table whose entries have birth numbers from 1 to the last one given, no two keys
  -- sharing one, a run of records and sweeps that cannot take the numbers past 2^64 leaves every entry
  -- with such a number, and no two keys with the same.
  pub calls-IsStamped :
      (t : Table K) (run : List (Call K))
      → t.next_born + length run < 2 ^ 64
      → IsBounded t
      → IsStamped t
      → IsStamped (calls t run)
  unfolding calls call
  calls-IsStamped t [] small b h = h
  calls-IsStamped t (adding k r now ∷ run) small b h =
      calls-IsStamped (add t k r now) run (ground (arith, next_born-add t k r now))
        (call-IsBounded t (adding k r now) b) (add-IsStamped t k r now (omega arith) h)
  calls-IsStamped t (sweeping cutoff ∷ run) small b h =
      calls-IsStamped (sweep t cutoff).0 run (unfold sweep in omega arith)
        (call-IsBounded t (sweeping cutoff) b) (sweep-IsStamped t cutoff b.distinct h)
