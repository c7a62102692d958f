-- ===== src/Decoder/Elements.antt =====
-- internal/decoder/fields.go: the readers of one element's value, `beUint` to `pastEpoch`.
pub mod Widths
use xflow_exporter.Common.{
  ℕ, zero, suc, ◌+◌, ◌*◌, ◌%◌, ◌^◌, Bool, true, false, ◌&&◌, ◌||◌, Option, none, some, List, [],
  ◌∷◌, if◌then◌else◌, ltb, leb, nat_eqb, length,
}
use xflow_exporter.Common.Bytes.{byte_or, word16, word32, ◌>>=◌}
use xflow_exporter.Flow.{
  Direction, direction_unknown, ingress, egress, app_selector_bits, Time, unix, unix_epoch,
}

-- The loop of `beUint`: `v<<8 | uint64(b)` on a uint64
unfoldable pub be_fold : ℕ → List ℕ → ℕ
be_fold v [] = v
be_fold v (b ∷ rest) = be_fold (v * 256 % 2 ^ 64 + b) rest

-- `binary.BigEndian.Uint64`
abbrev pub word64 : List ℕ → ℕ → ℕ
word64 p off = word32 p off * 2 ^ 32 + word32 p (off + 4)

abbrev pub is_odd_width : ℕ → Bool
is_odd_width n = nat_eqb n 3 || leb 5 n && leb n 7

-- `beUint`
unfoldable pub be_uint : List ℕ → Option ℕ
unfolding be_fold
be_uint value =
    let n = length value in
    if nat_eqb n 1
    then some (byte_or value 0)
    else if nat_eqb n 2
    then some (word16 value 0)
    else if nat_eqb n 4
    then some (word32 value 0)
    else if nat_eqb n 8
    then some (word64 value 0)
    else if is_odd_width n
    then some (be_fold 0 value)
    else none

-- A value that its target cannot hold is not read.
abbrev pub held_below : ℕ → Option ℕ → Option ℕ
held_below bound none = none
held_below bound (some v) = if ltb v bound then some v else none

-- `beUint8`, `beUint16`, `beUint32`
unfoldable pub be_uint8 : List ℕ → Option ℕ
unfolding be_uint
be_uint8 value = held_below (2 ^ 8) (be_uint value)

unfoldable pub be_uint16 : List ℕ → Option ℕ
unfolding be_uint
be_uint16 value = held_below (2 ^ 16) (be_uint value)

unfoldable pub be_uint32 : List ℕ → Option ℕ
unfolding be_uint
be_uint32 value = held_below (2 ^ 32) (be_uint value)

-- The application number of an engine and a selector.
abbrev pub joined_id : ℕ → Option ℕ → Option ℕ
joined_id engine none = none
joined_id engine (some selector) = some (engine * 2 ^ app_selector_bits + selector)

-- `applicationID`
unfoldable pub application_id : List ℕ → Option ℕ
unfolding be_uint
application_id [] = none
application_id (engine ∷ []) = none
application_id (engine ∷ b ∷ rest) =
    joined_id engine (held_below (2 ^ app_selector_bits) (be_uint (b ∷ rest)))

-- `unixSeconds`
unfoldable pub unix_seconds : List ℕ → Option Time
unix_seconds value = if nat_eqb (length value) 4 then some (unix (word32 value 0) 0) else none

-- `time.UnixMilli`
abbrev pub unix_milli : ℕ → Time
unix_milli v = unix_epoch + v * 10 ^ 6

-- `unixMilliseconds`
unfoldable pub unix_milliseconds : List ℕ → Option Time
unix_milliseconds value =
    if nat_eqb (length value) 8
    then (if ltb (word64 value 0) (2 ^ 63) then some (unix_milli (word64 value 0)) else none)
    else none

-- `pastEpoch`. `UnixNano` is taken modulo 2^64, so that it is 0 at the epoch and at each of the
-- instants 2^64 nanoseconds apart from it.
unfoldable pub past_epoch : Option Time → Option Time
past_epoch none = none
past_epoch (some at) = if nat_eqb (at % 2 ^ 64) (unix_epoch % 2 ^ 64) then none else some at

-- `flowDirection`
unfoldable pub flow_direction : List ℕ → Direction
unfolding be_uint8
flow_direction value = elim (be_uint8 value) [
  | none ↦ direction_unknown
  | some zero ↦ ingress
  | some (suc zero) ↦ egress
  | some (suc (suc v)) ↦ direction_unknown
]
