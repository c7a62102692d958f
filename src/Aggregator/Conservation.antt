-- ===== src/Aggregator/Conservation.antt =====
-- What the tables of internal/aggregator/aggregator.go carry after a batch.
use xflow_exporter.Common.{
  ℕ, ◌+◌, ◌%◌, ◌^◌, ◌≡◌, refl, sym, Bool, true, not, ◌&&◌, Option, none, some, List, [], ◌∷◌,
  if◌then◌else◌, Bool-cases, inl, inr, arith, is_some, Comparable, nat_eqb,
}
use xflow_exporter.Flow.{Record, aggregated, addr_is_valid}
use xflow_exporter.Aggregator.Tables.{Reading, Table}
use xflow_exporter.Aggregator.Tables.Ledger.{Counter, carried, of_reading, add_ledger}
use xflow_exporter.Aggregator.Keys.{
  exporter_key_eq, host_key_eq, service_key_eq, destination_key_eq,
}
use xflow_exporter.Aggregator.{
  Aggregator, ingest_one, ingest, feed, reading_of, service_port, host_key, service_key,
  destination_key, exporter_key,
}

abbrev pub carried_in : {K : Type 0} → Counter → Option (Table K) → ℕ
carried_in c none = 0
carried_in c (some t) = carried c t

-- The corrected counts of a batch's records that pass a test.
pub share : Counter → (Record → Bool) → List Record → ℕ
share c p [] = 0
share c p (r ∷ rest) = (if p r then of_reading c (reading_of r) else 0) + share c p rest

-- A gain that only an enabled table has.
abbrev pub if_enabled : {K : Type 0} → Option (Table K) → ℕ → ℕ
if_enabled none n = 0
if_enabled (some t) n = n

if_enabled_step :
    {K : Type 0} (t u : Option (Table K)) (m n : ℕ)
    → is_some u ≡ is_some t
    → if_enabled t m + if_enabled u n ≡ if_enabled t (m + n)
if_enabled_step none none m n h = omega arith
if_enabled_step (some t) (some u) m n h = omega arith
if_enabled_step none (some u) m n h = cc
if_enabled_step (some t) none m n h = cc

feed_ledger :
    {K : Type 0} ⦃e : Comparable K⦄ (c : Counter) (t : Option (Table K)) (key : Option K)
    (read : Reading) (now : ℕ)
    → carried_in c (feed t key read now) % 2 ^ 64
      ≡ (carried_in c t + if_enabled t (if is_some key then of_reading c read else 0)) % 2 ^ 64
unfolding feed
feed_ledger c none key read now = omega arith
feed_ledger c (some t) none read now = omega arith
feed_ledger c (some t) (some k) read now = add_ledger c t k read now

is_some-feed :
    {K : Type 0} ⦃e : Comparable K⦄ (t : Option (Table K)) (key : Option K) (read : Reading)
    (now : ℕ)
    → is_some (feed t key read now) ≡ is_some t
unfolding feed
is_some-feed none key read now = refl
is_some-feed (some t) none read now = refl
is_some-feed (some t) (some k) read now = refl

-- A table that each record feeds by its counts where it passes `p`, and that stays enabled.
module _ {K : Type 0} (c : Counter) (view : Aggregator → Option (Table K)) (p : Record → Bool)
    (enabled : (a : Aggregator) (r : Record) (now : ℕ)
      → is_some (view (ingest_one a r (reading_of r) now)) ≡ is_some (view a))
    (step : (a : Aggregator) (r : Record) (now : ℕ)
      → carried_in c (view (ingest_one a r (reading_of r) now)) % 2 ^ 64
        ≡ (carried_in c (view a)
            + if_enabled (view a) (if p r then of_reading c (reading_of r) else 0))
          % 2 ^ 64) where
  ingest-share :
      (a : Aggregator) (rs : List Record) (now : ℕ)
      → carried_in c (view (ingest a rs now)) % 2 ^ 64
        ≡ (carried_in c (view a) + if_enabled (view a) (share c p rs)) % 2 ^ 64
  unfolding ingest share
  ingest-share a [] now = nothing (view a)
    where
      nothing :
          (t : Option (Table K))
          → carried_in c t % 2 ^ 64 ≡ (carried_in c t + if_enabled t 0) % 2 ^ 64
      nothing none = omega arith
      nothing (some t) = omega arith
  ingest-share a (r ∷ rs) now =
      let next = ingest_one a r (reading_of r) now in
      let gain = if p r then of_reading c (reading_of r) else 0 in
      omega (
        arith,
        step a r now,
        ingest-share next rs now,
        if_enabled_step (view a) (view next) gain (share c p rs) (enabled a r now),
      )

abbrev pub always : Record → Bool
always r = true

abbrev pub has_pair : Record → Bool
has_pair r = not (aggregated r) && addr_is_valid r.src_addr && addr_is_valid r.dst_addr

abbrev pub has_service : Record → Bool
has_service r = has_pair r && not (nat_eqb r.protocol 0)

abbrev pub has_destination : Record → Bool
has_destination r = not (aggregated r) && addr_is_valid r.dst_addr && not (nat_eqb r.protocol 0)

feed-none :
    {K : Type 0} ⦃e : Comparable K⦄ (t : Option (Table K)) (read : Reading) (now : ℕ)
    → feed t none read now ≡ t
unfolding feed
feed-none none read now = refl
feed-none (some t) read now = refl

unless : {K : Type 0} → Bool → Option K → Option K
unless folded key = if folded then none else key

exporters-ingest_one :
    (a : Aggregator) (r : Record) (read : Reading) (now : ℕ)
    → (ingest_one a r read now).exporters ≡ feed a.exporters (some (exporter_key r)) read now
unfolding ingest_one unless
exporters-ingest_one a r read now = elim (Bool-cases (aggregated r)) [
  | inl folded ↦ rw folded
  | inr whole ↦ rw whole
]

exporters_step :
    (c : Counter) (a : Aggregator) (r : Record) (now : ℕ)
    → carried_in c (ingest_one a r (reading_of r) now).exporters % 2 ^ 64
      ≡ (carried_in c a.exporters
          + if_enabled a.exporters (if always r then of_reading c (reading_of r) else 0))
        % 2 ^ 64
exporters_step c a r now =
    rw exporters-ingest_one (feed_ledger c a.exporters (some (exporter_key r)) (reading_of r) now)

hosts-ingest_one :
    (a : Aggregator) (r : Record) (read : Reading) (now : ℕ)
    → (ingest_one a r read now).hosts ≡ feed a.hosts (unless (aggregated r) (host_key r)) read now
unfolding ingest_one unless
hosts-ingest_one a r read now = elim (Bool-cases (aggregated r)) [
  | inl folded ↦ rw folded (sym (feed-none a.hosts read now))
  | inr whole ↦ rw whole
]

hosts_step :
    (c : Counter) (a : Aggregator) (r : Record) (now : ℕ)
    → carried_in c (ingest_one a r (reading_of r) now).hosts % 2 ^ 64
      ≡ (carried_in c a.hosts
          + if_enabled a.hosts (if has_pair r then of_reading c (reading_of r) else 0))
        % 2 ^ 64
hosts_step c a r now =
    rw hosts-ingest_one
      (rw (← keyed) (feed_ledger c a.hosts (unless (aggregated r) (host_key r)) (reading_of r) now))
  where
    keyed : is_some (unless (aggregated r) (host_key r)) ≡ has_pair r
    keyed = unfold unless host_key in ground arith

services-ingest_one :
    (a : Aggregator) (r : Record) (read : Reading) (now : ℕ)
    → (ingest_one a r read now).services
      ≡ feed a.services
          (unless
            (aggregated r)
            (service_key r (service_port a.is_service r).0 (service_port a.is_service r).1))
          read
          now
unfolding ingest_one unless
services-ingest_one a r read now = elim (Bool-cases (aggregated r)) [
  | inl folded ↦ rw folded (sym (feed-none a.services read now))
  | inr whole ↦ rw whole
]

services_step :
    (c : Counter) (a : Aggregator) (r : Record) (now : ℕ)
    → carried_in c (ingest_one a r (reading_of r) now).services % 2 ^ 64
      ≡ (carried_in c a.services
          + if_enabled a.services (if has_service r then of_reading c (reading_of r) else 0))
        % 2 ^ 64
services_step c a r now = rw services-ingest_one (
    rw (← keyed) (
      feed_ledger c a.services
        (unless (aggregated r)
          (service_key r (service_port a.is_service r).0 (service_port a.is_service r).1))
        (reading_of r) now))
  where
    keyed :
        is_some (
          unless
            (aggregated r)
            (service_key r (service_port a.is_service r).0 (service_port a.is_service r).1))
        ≡ has_service r
    keyed = unfold unless service_key in ground arith

destinations-ingest_one :
    (a : Aggregator) (r : Record) (read : Reading) (now : ℕ)
    → (ingest_one a r read now).destinations
      ≡ feed a.destinations
          (unless
            (aggregated r)
            (destination_key r (service_port a.is_service r).0 (service_port a.is_service r).1))
          read
          now
unfolding ingest_one unless
destinations-ingest_one a r read now = elim (Bool-cases (aggregated r)) [
  | inl folded ↦ rw folded (sym (feed-none a.destinations read now))
  | inr whole ↦ rw whole
]

destinations_step :
    (c : Counter) (a : Aggregator) (r : Record) (now : ℕ)
    → carried_in c (ingest_one a r (reading_of r) now).destinations % 2 ^ 64
      ≡ (carried_in c a.destinations
          + if_enabled a.destinations
              (if has_destination r then of_reading c (reading_of r) else 0))
        % 2 ^ 64
destinations_step c a r now = rw destinations-ingest_one (
    rw (← keyed) (
      feed_ledger c a.destinations
        (unless (aggregated r)
          (destination_key r (service_port a.is_service r).0 (service_port a.is_service r).1))
        (reading_of r) now))
  where
    keyed :
        is_some (
          unless
            (aggregated r)
            (destination_key r (service_port a.is_service r).0 (service_port a.is_service r).1))
        ≡ has_destination r
    keyed = unfold unless destination_key in ground arith

exporters_enabled :
    (a : Aggregator) (r : Record) (now : ℕ)
    → is_some (ingest_one a r (reading_of r) now).exporters ≡ is_some a.exporters
exporters_enabled a r now =
    rw exporters-ingest_one (is_some-feed a.exporters (some (exporter_key r)) (reading_of r) now)

hosts_enabled :
    (a : Aggregator) (r : Record) (now : ℕ)
    → is_some (ingest_one a r (reading_of r) now).hosts ≡ is_some a.hosts
hosts_enabled a r now =
    rw hosts-ingest_one
      (is_some-feed a.hosts (unless (aggregated r) (host_key r)) (reading_of r) now)

services_enabled :
    (a : Aggregator) (r : Record) (now : ℕ)
    → is_some (ingest_one a r (reading_of r) now).services ≡ is_some a.services
services_enabled a r now = rw services-ingest_one (
    is_some-feed a.services
      (unless (aggregated r)
        (service_key r (service_port a.is_service r).0 (service_port a.is_service r).1))
      (reading_of r) now)

destinations_enabled :
    (a : Aggregator) (r : Record) (now : ℕ)
    → is_some (ingest_one a r (reading_of r) now).destinations ≡ is_some a.destinations
destinations_enabled a r now = rw destinations-ingest_one (
    is_some-feed a.destinations
      (unless (aggregated r)
        (destination_key r (service_port a.is_service r).0 (service_port a.is_service r).1))
      (reading_of r) now)

-- A batch adds to each of the four tables that are keyed by device or by address exactly the
-- corrected counts of the records that belong in it, modulo 2^64, and nothing to a table that is
-- disabled: every record to the exporters, and of the per-flow records those with both addresses
-- to the hosts, those with both addresses and a protocol to the services, and those with a
-- destination and a protocol to the destinations.
pub ingest_conserves :
    (c : Counter) (a : Aggregator) (rs : List Record) (now : ℕ)
    → let a' = ingest a rs now in
      (carried_in c a'.exporters % 2 ^ 64
        ≡ (carried_in c a.exporters + if_enabled a.exporters (share c always rs)) % 2 ^ 64)
      × (carried_in c a'.hosts % 2 ^ 64
          ≡ (carried_in c a.hosts + if_enabled a.hosts (share c has_pair rs)) % 2 ^ 64)
      × (carried_in c a'.services % 2 ^ 64
          ≡ (carried_in c a.services + if_enabled a.services (share c has_service rs)) % 2 ^ 64)
      × (carried_in c a'.destinations % 2 ^ 64
          ≡ (carried_in c a.destinations + if_enabled a.destinations (share c has_destination rs))
            % 2 ^ 64)
ingest_conserves c a rs now = (
  ingest-share c (λ b. b.exporters) always exporters_enabled (exporters_step c) a rs now,
  ingest-share c (λ b. b.hosts) has_pair hosts_enabled (hosts_step c) a rs now,
  ingest-share c (λ b. b.services) has_service services_enabled (services_step c) a rs now,
  ingest-share c (λ b. b.destinations) has_destination destinations_enabled (destinations_step c) a
      rs now,
)
