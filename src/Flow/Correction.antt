-- ===== src/Flow/Correction.antt =====
-- The correction of the counts by the sampling rate, `Record.Corrected`.
use Prim.Native.Nat.{min, max}
use xflow_exporter.Common.{ℕ, ◌-◌, ◌*◌, ◌^◌, ◌≤◌, ◌≡◌, arith}
use xflow_exporter.Flow.{Record, corrected, saturating_product}

saturating_product-min :
    (count rate : ℕ) → saturating_product count rate ≡ min (count * rate) (2 ^ 64 - 1)
unfolding saturating_product
saturating_product-min count rate = ground arith

-- Both counts are the product with the rate in force, a rate of zero counting as one, held at the
-- largest uint64 where the product passes it.
pub corrected_lem :
    (r : Record)
    → corrected r ≡ (
      min (r.bytes * max r.sampling_rate 1) (2 ^ 64 - 1),
      min (r.packets * max r.sampling_rate 1) (2 ^ 64 - 1),
    )
unfolding corrected
corrected_lem r = ground arith

-- A larger reading at the same rate never corrects to a smaller one.
pub corrected_mono :
    (r s : Record)
    → r.sampling_rate ≡ s.sampling_rate
    → r.bytes ≤ s.bytes
    → r.packets ≤ s.packets
    → ((corrected r).0 ≤ (corrected s).0) × ((corrected r).1 ≤ (corrected s).1)
corrected_mono r s e hb hp = grind (arith, corrected_lem r, corrected_lem s)
