-- ===== src/Decoder/State.antt =====
-- internal/decoder/decoder.go: the state of a `Decoder` that its parsers share. The interner that
-- `strings` points to is the one of the application tables, as in `New`.
use xflow_exporter.Common.{ℕ}
use xflow_exporter.Flow.{Addr, Version}
use xflow_exporter.Decoder.Reason.{Reason}
use xflow_exporter.Decoder.Store.{Store}
use xflow_exporter.Decoder.Apps.{AppTables, new_app_tables, new_interner}
use xflow_exporter.Decoder.Stats.{Stats, new_stats, account, count_error}
use xflow_exporter.Decoder.Store.{new_store}

-- `noteLimiter` of internal/decoder/notes.go
pub record NoteLimiter : Type 0 where
  pub minute : ℕ
  pub sent : ℕ
  pub suppressed : ℕ

-- `Decoder`, less its logger and its clock
pub record DecoderState : Type 0 where
  pub stats : Stats
  pub templates : Store
  pub apps : AppTables
  pub notes : NoteLimiter

-- `New`, from the parser limits
abbrev pub new_decoder : ℕ → ℕ → DecoderState
new_decoder max_fields ttl = record {
  stats = new_stats;
  templates = new_store max_fields ttl;
  apps = new_app_tables new_interner;
  notes = record { minute = 0; sent = 0; suppressed = 0 };
}

-- The `issue` that `decodeVersion` hands to a parser: one error of the device, counted where it holds
-- counters.
unfoldable pub issue : Version → Addr → Reason → DecoderState → DecoderState
issue version exporter reason s = record s {
  stats = account exporter (count_error version reason) s.stats;
}
