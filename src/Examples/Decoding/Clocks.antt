-- ===== src/Examples/Decoding/Clocks.antt =====
-- The theorems on the version sniffing, the flow clocks and the note limiter of internal/decoder at concrete inputs.
use xflow_exporter.Common.{
  ℕ, ◌+◌, ◌-◌, ◌*◌, ◌≡◌, refl, ◌≢◌, arith, true, false, List, [], ◌∷◌, none, sub32,
}
use xflow_exporter.Flow.{unix, Time}
use xflow_exporter.Decoder.State.{NoteLimiter}
use xflow_exporter.Decoder.Notes.Limiting.{IsLimited, ask_all_lem}
use xflow_exporter.Decoder.Clock.{
  ExportClock, anchor, anchor_pair, anchor_before, anchor_pair_duration, millisecond,
}
use xflow_exporter.Decoder.Sniff.{sniff_version, sniff_version_lem}

-- An IPFIX header's first bytes.
abbrev ipfix_start : List ℕ
ipfix_start = 0 ∷ 10 ∷ 0 ∷ 16 ∷ []

sniff_version_lem_example : sniff_version ipfix_start ≢ none
sniff_version_lem_example = (sniff_version_lem ipfix_start).0

-- A device whose uptime wrapped a second ago.
abbrev wrapped : ExportClock
wrapped = record { at = unix 1700000000 0; uptime_ms = 1000; has_uptime = true }

abbrev without_uptime : ExportClock
without_uptime = record { at = unix 1700000000 0; uptime_ms = 0; has_uptime = false }

anchor_before_example : anchor wrapped (sub32 1000 5000) ≡ unix 1700000000 0 - 5000 * millisecond
anchor_before_example = anchor_before wrapped 5000 (omega arith) (omega arith)

anchor_pair_duration_example :
    let (start, end, shown) = anchor_pair wrapped (sub32 1000 5000) (sub32 1000 2000) in
    (shown ≡ true) × (end ≡ start + 3000 * millisecond)
anchor_pair_duration_example =
    anchor_pair_duration wrapped 2000 3000 (omega arith) (omega arith) (omega arith)

-- A minute with room for one more note, and two notes asked for.
abbrev nearly_spent : NoteLimiter
nearly_spent = record { minute = 1; sent = 59; suppressed = 4 }

abbrev askings : List Time
askings = unix 100 0 ∷ unix 101 0 ∷ []

ask_all_lem_example : IsLimited 1 askings nearly_spent
ask_all_lem_example = ask_all_lem 1 askings nearly_spent (refl, (refl, tt)) (omega arith)
