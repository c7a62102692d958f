-- ===== src/Decoder/Samplers/Totals.antt =====
-- What the samples of one sampler add to its domain's totals, internal/decoder/templates.go.
use xflow_exporter.Common.{ℕ, ◌+◌, ◌<◌, List, [], ◌∷◌, IsU32, add32}
use xflow_exporter.Decoder.Domain.{DomainState, SamplerState}
use xflow_exporter.Decoder.Sequence.{forward_window}
use xflow_exporter.Decoder.Samplers.{measure_sample}

-- How far one sample lies from the last: its sequence number, its pool and its drops.
pub record Advance : Type 0 where
  pub step : ℕ
  pub pool : ℕ
  pub drops : ℕ

-- The reading that lies so far from another, at the agent's 32-bit widths.
abbrev pub advanced : SamplerState → Advance → SamplerState
advanced s a = record s {
  seq = add32 s.seq a.step;
  pool = add32 s.pool a.pool;
  drops = add32 s.drops a.drops;
}

-- The domain after a sampler's readings, each measured from the one before.
pub measure_all : DomainState → ℕ → SamplerState → List Advance → DomainState
measure_all d id last [] = d
measure_all d id last (a ∷ rest) =
    measure_all (measure_sample d id last (advanced last a)) id (advanced last a) rest

abbrev pub WithinWindow : Advance → Type 0
WithinWindow a = (a.step < forward_window) × (a.pool < forward_window) × (a.drops < forward_window)

pub pool_sum : List Advance → ℕ
pool_sum [] = 0
pool_sum (a ∷ rest) = a.pool + pool_sum rest

pub drops_sum : List Advance → ℕ
drops_sum [] = 0
drops_sum (a ∷ rest) = a.drops + drops_sum rest

-- The state's counters are 32-bit words.
abbrev pub IsReading : SamplerState → Type 0
IsReading s = IsU32 s.seq × IsU32 s.pool × IsU32 s.drops
