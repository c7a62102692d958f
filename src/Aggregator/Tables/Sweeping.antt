-- ===== src/Aggregator/Tables/Sweeping.antt =====
-- What `table.sweep` of internal/aggregator/table.go keeps, drops and counts.
use xflow_exporter.Common.{
  ℕ, ◌+◌, ◌≡◌, Option, none, some, [], ◌∷◌, Map, lookup, length, if◌then◌else◌, leb, Comparable,
  add64, Distinct, arith, refl,
}
use xflow_exporter.Aggregator.Tables.{
  Table, Entry, Totals, sweep, sweep_loop, drop_totals, zero_totals,
}

-- The entry that stays under a key.
abbrev pub kept_entry : ℕ → Option Entry → Option Entry
kept_entry cutoff none = none
kept_entry cutoff (some found) = if leb cutoff found.last_seen then some found else none

module _ {K : Type 0} ⦃e : Comparable K⦄ where
  lookup-sweep_loop-none :
      (cutoff : ℕ) (m : Map K Entry) (n : ℕ) (d : Totals) (j : K)
      → lookup j m ≡ none
      → lookup j (sweep_loop cutoff m n d).0 ≡ none
  unfolding sweep_loop lookup
  lookup-sweep_loop-none cutoff [] n d j h = refl
  lookup-sweep_loop-none cutoff ((k, v) ∷ m) n d j h = ground (
    arith,
    lookup-sweep_loop-none cutoff m n d j,
    lookup-sweep_loop-none cutoff m (n + 1) (drop_totals v d) j,
  )

  lookup-sweep_loop :
      (cutoff : ℕ) (m : Map K Entry) (n : ℕ) (d : Totals) (j : K)
      → Distinct m
      → lookup j (sweep_loop cutoff m n d).0 ≡ kept_entry cutoff (lookup j m)
  unfolding sweep_loop lookup
  lookup-sweep_loop cutoff [] n d j h = refl
  lookup-sweep_loop cutoff ((k, v) ∷ m) n d j (hk, hm) = ground (
    arith,
    e.equals_iff k j,
    lookup-sweep_loop cutoff m n d j hm,
    lookup-sweep_loop cutoff m (n + 1) (drop_totals v d) j hm,
  )

  Distinct-sweep_loop :
      (cutoff : ℕ) (m : Map K Entry) (n : ℕ) (d : Totals)
      → Distinct m
      → Distinct (sweep_loop cutoff m n d).0
  unfolding sweep_loop
  Distinct-sweep_loop cutoff [] n d h = tt
  Distinct-sweep_loop cutoff ((k, v) ∷ m) n d (hk, hm) = ground (
    arith,
    lookup-sweep_loop-none cutoff m n d k hk,
    Distinct-sweep_loop cutoff m n d hm,
    Distinct-sweep_loop cutoff m (n + 1) (drop_totals v d) hm,
  )

module _ {K : Type 0} where
  pub sweep_loop_counts :
      (cutoff : ℕ) (m : Map K Entry) (n : ℕ) (d : Totals)
      → length (sweep_loop cutoff m n d).0 + (sweep_loop cutoff m n d).1 ≡ length m + n
  unfolding sweep_loop
  sweep_loop_counts cutoff [] n d = refl
  sweep_loop_counts cutoff ((k, v) ∷ m) n d =
      ground (
        arith,
        sweep_loop_counts cutoff m n d,
        sweep_loop_counts cutoff m (n + 1) (drop_totals v d),
      )

module _ {K : Type 0} ⦃e : Comparable K⦄ where
  pub Distinct-sweep :
      (t : Table K) (cutoff : ℕ) → Distinct t.entries → Distinct (sweep t cutoff).0.entries
  unfolding sweep
  Distinct-sweep t cutoff h = Distinct-sweep_loop cutoff t.entries 0 zero_totals h

  pub length-sweep :
      (t : Table K) (cutoff : ℕ)
      → length (sweep t cutoff).0.entries + (sweep t cutoff).1 ≡ length t.entries
  unfolding sweep
  length-sweep t cutoff = omega (arith, sweep_loop_counts cutoff t.entries 0 zero_totals)

  -- A sweep of a table whose keys are distinct keeps, under every key, exactly the entry last seen
  -- at the cutoff or later; what it evicts and what it keeps add up to the entries it found, the
  -- eviction counter moves by the evicted, and the keys stay distinct.
  pub sweep_effect :
      (t : Table K) (cutoff : ℕ) (j : K)
      → Distinct t.entries
      → (lookup j (sweep t cutoff).0.entries ≡ kept_entry cutoff (lookup j t.entries))
        × (length (sweep t cutoff).0.entries + (sweep t cutoff).1 ≡ length t.entries)
        × ((sweep t cutoff).0.idle_evictions ≡ add64 t.idle_evictions (sweep t cutoff).1)
        × Distinct (sweep t cutoff).0.entries
  unfolding sweep
  sweep_effect t cutoff j h = (
    lookup-sweep_loop cutoff t.entries 0 zero_totals j h,
    length-sweep t cutoff,
    refl,
    Distinct-sweep t cutoff h,
  )
