-- ===== src/Aggregator/Feeding.antt =====
-- Which tables a record reaches in internal/aggregator/aggregator.go.
use xflow_exporter.Common.{
  ℕ, ◌≡◌, refl, sym, ◌∙◌, ap, true, none, List, [], ◌∷◌, if◌then◌else◌, Bool-cases, inl, inr,
}
use xflow_exporter.Flow.{Record, aggregated}
use xflow_exporter.Aggregator.Tables.{Reading}
use xflow_exporter.Aggregator.{Aggregator, ingest_one, ingest, feed, reading_of}

-- An aggregator with its exporters table left out of sight.
abbrev pub keyed_part : Aggregator → Aggregator
keyed_part a = record a { exporters = none }

-- The records of a batch that a device did not fold before it exported them.
pub per_flow : List Record → List Record
per_flow [] = []
per_flow (r ∷ rest) = if aggregated r then per_flow rest else r ∷ per_flow rest

keyed_part-ingest_one :
    (a : Aggregator) (r : Record) (read : Reading) (now : ℕ)
    → keyed_part (ingest_one a r read now) ≡ ingest_one (keyed_part a) r read now
unfolding ingest_one feed
keyed_part-ingest_one a r read now = elim (Bool-cases (aggregated r)) [
  | inl folded ↦ rw folded
  | inr whole ↦ rw whole
]

ingest_one_folded :
    (a : Aggregator) (r : Record) (read : Reading) (now : ℕ)
    → aggregated r ≡ true
    → ingest_one (keyed_part a) r read now ≡ keyed_part a
unfolding ingest_one feed
ingest_one_folded a r read now h = rw h

keyed_part-ingest :
    (a : Aggregator) (rs : List Record) (now : ℕ)
    → keyed_part (ingest a rs now) ≡ ingest (keyed_part a) rs now
unfolding ingest
keyed_part-ingest a [] now = refl
keyed_part-ingest a (r ∷ rs) now =
    keyed_part-ingest (ingest_one a r (reading_of r) now) rs now
    ∙ ap (λ (b : Aggregator). ingest b rs now) (keyed_part-ingest_one a r (reading_of r) now)

ingest-per_flow :
    (a : Aggregator) (rs : List Record) (now : ℕ)
    → ingest (keyed_part a) rs now ≡ ingest (keyed_part a) (per_flow rs) now
unfolding ingest per_flow
ingest-per_flow a [] now = refl
ingest-per_flow a (r ∷ rs) now = elim (Bool-cases (aggregated r)) [
  | inl folded ↦
      ap (λ (b : Aggregator). ingest b rs now) (ingest_one_folded a r (reading_of r) now folded)
      ∙ ingest-per_flow a rs now
      ∙ rw folded
  | inr whole ↦
      ap (λ (b : Aggregator). ingest b rs now) (sym (keyed_part-ingest_one a r (reading_of r) now))
      ∙ ingest-per_flow (ingest_one a r (reading_of r) now) rs now
      ∙ ap (λ (b : Aggregator). ingest b (per_flow rs) now)
          (keyed_part-ingest_one a r (reading_of r) now)
      ∙ rw whole
]

-- A record that a device folded reaches no table but the exporters table: the ten others end as if
-- the batch had held its per-flow records alone.
pub ingest_ignores_folded :
    (a : Aggregator) (rs : List Record) (now : ℕ)
    → keyed_part (ingest a rs now) ≡ keyed_part (ingest a (per_flow rs) now)
ingest_ignores_folded a rs now =
    keyed_part-ingest a rs now
    ∙ ingest-per_flow a rs now
    ∙ sym (keyed_part-ingest a (per_flow rs) now)
