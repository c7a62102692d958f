-- ===== src/Common/Maps.antt =====
-- Go's maps as association lists with distinct keys. Iteration goes in list order, one of those
-- that Go may take.
use Prim.Native.Nat.{ℕ, ◌+◌, ◌≤◌, ◌<◌}
use mathlib.Core.Path.{◌≡◌, refl}
use mathlib.Core.Logic.{inl, inr}
use mathlib.Core.Bool.{Bool, true}
use mathlib.Core.List.{List, [], ◌∷◌}
use mathlib.Core.Option.{Option, none, some}
use native.Mathlib.Omega.{arith}
use xflow_exporter.Common.Tests.{if◌then◌else◌, is_some, Bool-cases}
use xflow_exporter.Common.Lists.{length}
use xflow_exporter.Common.Equality.{Comparable, ◌==◌, equals_refl}

abbrev pub Map {ℓ κ} : Type ℓ → Type κ → Type (ℓ ⊔ κ)
Map K V = List (K × V)

module _ {ℓ κ} {K : Type ℓ} {V : Type κ} ⦃e : Comparable K⦄ where
  -- `m[k]` with the second result that says whether it was there
  unfoldable pub lookup : K → Map K V → Option V
  lookup key [] = none
  lookup key ((other, w) ∷ rest) = if other == key then some w else lookup key rest

  -- `m[k] = v`
  unfoldable pub insert : K → V → Map K V → Map K V
  insert key v [] = (key, v) ∷ []
  insert key v ((other, w) ∷ rest) =
      if other == key then (other, v) ∷ rest else (other, w) ∷ insert key v rest

  -- `delete(m, k)`
  unfoldable pub erase : K → Map K V → Map K V
  erase k [] = []
  erase k ((j, w) ∷ m) = let rest = erase k m in if j == k then rest else (j, w) ∷ rest

  -- No key twice: what a Go map gives.
  abbrev pub Distinct : Map K V → Type κ
  Distinct [] = Unit {κ}
  Distinct ((k, v) ∷ m) = (lookup k m ≡ none) × Distinct m

  pub lookup-insert :
      (k j : K) (v : V) (m : Map K V)
      → lookup j (insert k v m) ≡ (if k == j then some v else lookup j m)
  unfolding insert lookup
  lookup-insert key wanted value [] = refl
  lookup-insert key wanted value ((other, held) ∷ rest) = ground (
    arith,
    e.equals_iff key wanted,
    e.equals_iff other key,
    e.equals_iff other wanted,
    lookup-insert key wanted value rest,
  )

  pub lookup-erase :
      (k j : K) (m : Map K V) → lookup j (erase k m) ≡ (if k == j then none else lookup j m)
  unfolding lookup erase
  lookup-erase k j [] = ground arith
  lookup-erase k j ((i, w) ∷ m) =
      ground (arith, e.equals_iff k j, e.equals_iff i k, e.equals_iff i j, lookup-erase k j m)

  pub Distinct-insert : (k : K) (v : V) (m : Map K V) → Distinct m → Distinct (insert k v m)
  unfolding lookup insert
  Distinct-insert k v [] h = (refl, tt)
  Distinct-insert k v ((i, w) ∷ m) (hi, hm) =
      ground
        (arith, e.equals_iff i k, e.equals_iff k i, lookup-insert k i v m, Distinct-insert k v m hm)

  pub Distinct-erase : (k : K) (m : Map K V) → Distinct m → Distinct (erase k m)
  unfolding erase
  Distinct-erase k [] h = tt
  Distinct-erase k ((i, w) ∷ m) (hi, hm) =
      ground (arith, e.equals_iff k i, lookup-erase k i m, Distinct-erase k m hm)

  pub length-insert :
      (k : K) (v : V) (m : Map K V)
      → length (insert k v m) ≡ (if is_some (lookup k m) then length m else length m + 1)
  unfolding lookup insert
  length-insert k v [] = omega arith
  length-insert k v ((i, w) ∷ m) = ground (arith, length-insert k v m)

  pub lookup_nonempty : (k : K) (m : Map K V) → is_some (lookup k m) ≡ true → 0 < length m
  unfolding lookup
  lookup_nonempty k [] h = cc
  lookup_nonempty k ((i, w) ∷ m) h = omega arith

  pub length-erase-le : (k : K) (m : Map K V) → length (erase k m) ≤ length m
  unfolding erase
  length-erase-le k [] = omega arith
  length-erase-le k ((i, w) ∷ m) = ground (arith, length-erase-le k m)

-- The sum of a measure over the values.
abbrev pub sum_by {ℓ κ} : {K : Type ℓ} {V : Type κ} → (V → ℕ) → Map K V → ℕ
sum_by f [] = 0
sum_by f ((k, v) ∷ m) = f v + sum_by f m

-- The measure of a value that may be absent.
abbrev pub measure_or_zero {κ} : {V : Type κ} → (V → ℕ) → Option V → ℕ
measure_or_zero f none = 0
measure_or_zero f (some v) = f v

pub sum_by-insert {ℓ κ} :
    {K : Type ℓ} {V : Type κ} ⦃e : Comparable K⦄ (f : V → ℕ) (k : K) (v : V) (m : Map K V)
    → sum_by f (insert k v m) + measure_or_zero f (lookup k m) ≡ sum_by f m + f v
unfolding lookup insert
sum_by-insert f k v [] = omega arith
sum_by-insert f k v ((i, w) ∷ m) = ground (arith, sum_by-insert f k v m)

erase_absent {ℓ κ} :
    {K : Type ℓ} {V : Type κ} ⦃e : Comparable K⦄ (k : K) (m : Map K V)
    → lookup k m ≡ none
    → erase k m ≡ m
unfolding lookup erase
erase_absent k [] h = refl
erase_absent k ((i, w) ∷ m) h = ground (arith, erase_absent k m)

pub sum_by-erase {ℓ κ} :
    {K : Type ℓ} {V : Type κ} ⦃e : Comparable K⦄ (f : V → ℕ) (k : K) (m : Map K V)
    → Distinct m
    → sum_by f (erase k m) + measure_or_zero f (lookup k m) ≡ sum_by f m
unfolding lookup erase
sum_by-erase f k [] h = omega arith
sum_by-erase ⦃e⦄ f k ((i, w) ∷ m) (hi, hm) =
    ground (arith, sum_by-erase f k m hm, e.equals_iff i k, erase_absent k m)

-- The sum of a measure over the keys and the values.
abbrev pub tally {ℓ κ} : {K : Type ℓ} {V : Type κ} → (K → V → ℕ) → Map K V → ℕ
tally f [] = 0
tally f ((k, v) ∷ m) = f k v + tally f m

pub tally-insert {ℓ κ} :
    {K : Type ℓ} {V : Type κ} ⦃e : Comparable K⦄ (f : K → V → ℕ) (k : K) (v : V) (m : Map K V)
    → tally f (insert k v m) + measure_or_zero (f k) (lookup k m) ≡ tally f m + f k v
unfolding lookup insert
tally-insert f k v [] = omega arith
tally-insert ⦃e⦄ f k v ((i, w) ∷ m) = elim (Bool-cases (i == k)) [
  | inl same ↦ rw (same, (e.equals_iff i k).0 same) (omega arith)
  | inr other ↦ rw other (omega (arith, tally-insert f k v m))
]

pub tally-erase {ℓ κ} :
    {K : Type ℓ} {V : Type κ} ⦃e : Comparable K⦄ (f : K → V → ℕ) (k : K) (m : Map K V)
    → Distinct m
    → tally f (erase k m) + measure_or_zero (f k) (lookup k m) ≡ tally f m
unfolding lookup erase
tally-erase f k [] h = omega arith
tally-erase ⦃e⦄ f k ((i, w) ∷ m) (hi, hm) = elim (Bool-cases (i == k)) [
  | inl same ↦
      let gone : lookup k m ≡ none = cc (hi, (e.equals_iff i k).0 same) in
      rw (same, (e.equals_iff i k).0 same, erase_absent k m gone) (omega arith)
  | inr other ↦ rw other (omega (arith, tally-erase f k m hm))
]

-- Every value changed in place.
unfoldable pub map_values {ℓ κ} : {K : Type ℓ} {V : Type κ} → (K → V → V) → Map K V → Map K V
map_values f [] = []
map_values f ((k, v) ∷ m) = (k, f k v) ∷ map_values f m

abbrev pub changed_value {κ} : {V : Type κ} → (V → V) → Option V → Option V
changed_value f none = none
changed_value f (some v) = some (f v)

pub lookup-map_values {ℓ κ} :
    {K : Type ℓ} {V : Type κ} ⦃e : Comparable K⦄ (f : K → V → V) (k : K) (m : Map K V)
    → lookup k (map_values f m) ≡ changed_value (f k) (lookup k m)
unfolding lookup map_values
lookup-map_values f k [] = refl
lookup-map_values ⦃e⦄ f k ((i, w) ∷ m) = elim (Bool-cases (i == k)) [
  | inl same ↦ rw (same, (e.equals_iff i k).0 same) refl
  | inr other ↦ rw other (lookup-map_values f k m)
]

-- The entries whose key passes a test.
unfoldable pub keep_keys {ℓ κ} : {K : Type ℓ} {V : Type κ} → (K → Bool) → Map K V → Map K V
keep_keys p [] = []
keep_keys p ((k, v) ∷ m) = let rest = keep_keys p m in if p k then (k, v) ∷ rest else rest

pub lookup-keep_keys {ℓ κ} :
    {K : Type ℓ} {V : Type κ} ⦃e : Comparable K⦄ (p : K → Bool) (k : K) (m : Map K V)
    → p k ≡ true
    → lookup k (keep_keys p m) ≡ lookup k m
unfolding lookup keep_keys
lookup-keep_keys p k [] h = refl
lookup-keep_keys ⦃e⦄ p k ((i, w) ∷ m) h = elim (Bool-cases (i == k)) [
  | inl same ↦ rw (same, (e.equals_iff i k).0 same, h, equals_refl k) refl
  | inr other ↦ elim (Bool-cases (p i)) [
    | inl kept ↦ rw (kept, other) (lookup-keep_keys p k m h)
    | inr gone ↦ rw (gone, other) (lookup-keep_keys p k m h)
  ]
]

-- The keys in the order of iteration.
abbrev pub keys {ℓ κ} : {K : Type ℓ} {V : Type κ} → Map K V → List K
keys [] = []
keys ((k, v) ∷ m) = k ∷ keys m

pub Distinct-map_values {ℓ κ} :
    {K : Type ℓ} {V : Type κ} ⦃e : Comparable K⦄ (f : K → V → V) (m : Map K V)
    → Distinct m
    → Distinct (map_values f m)
unfolding map_values
Distinct-map_values f [] h = tt
Distinct-map_values f ((i, w) ∷ m) (hi, hm) =
    (rw (lookup-map_values f i m, hi) refl, Distinct-map_values f m hm)
