-- ===== src/Flow.antt =====
-- internal/flow/flow.go: the normalized flow record that every decoder produces and every later
-- stage consumes, and the correction of its counts by the sampling rate.
pub mod Correction
pub mod Identity
use Prim.Native.Nat.{min}
use xflow_exporter.Common.{
  ℕ, ◌+◌, ◌-◌, ◌*◌, ◌/◌, ◌%◌, ◌^◌, String, Bool, ◌||◌, Option, none, some, if◌then◌else◌, nat_eqb,
  leb, [], true, false,
}
use xflow_exporter.Common.Int.{ℤ, pos, negsuc}
use xflow_exporter.Common.Bytes.{Text}

-- Go's `netip.Addr`: the zero value, an IPv4 address, or an IPv6 address with its zone.
pub data Addr : Type 0 where
  no_addr : Addr
  v4 : ℕ → Addr
  v6 : ℕ → Text → Addr

unfoldable pub addr_is_valid : Addr → Bool
addr_is_valid no_addr = false
addr_is_valid (v4 a) = true
addr_is_valid (v6 a z) = true

pub data Version : Type 0 where
  version_unknown netflow_v5 netflow_v8 netflow_v9 ipfix sflow_v5 : Version

-- `Version.String`, the `version` label
unfoldable pub version_label : Version → String
version_label netflow_v5 = "netflow_v5"
version_label netflow_v8 = "netflow_v8"
version_label netflow_v9 = "netflow_v9"
version_label ipfix = "ipfix"
version_label sflow_v5 = "sflow_v5"
version_label version_unknown = "unknown"

pub data Direction : Type 0 where
  direction_unknown ingress egress : Direction

-- `Direction.String`, the `direction` label
unfoldable pub direction_label : Direction → String
direction_label ingress = "ingress"
direction_label egress = "egress"
direction_label direction_unknown = "unknown"

abbrev pub app_selector_bits : ℕ
app_selector_bits = 24

-- `time.Time` in nanoseconds since its zero instant, year 1; so `IsZero` is a test for 0.
abbrev pub Time : Type 0
Time = ℕ

-- The Unix epoch on that scale.
abbrev pub unix_epoch : Time
unix_epoch = 62135596800 * 10 ^ 9

-- `time.Unix(seconds, nanos)` for unsigned arguments
abbrev pub unix : ℕ → ℕ → Time
unix seconds nanos = unix_epoch + seconds * 10 ^ 9 + nanos

pub record Record : Type 0 where
  pub exporter : Addr
  pub version : Version
  pub odid : ℕ
  pub src_addr : Addr
  pub dst_addr : Addr
  pub src_port : ℕ
  pub dst_port : ℕ
  pub protocol : ℕ
  pub direction : Direction
  pub tos : ℕ
  pub tos_reported : Bool
  pub tcp_flags : ℕ
  pub tcp_flags_reported : Bool
  pub input_if : ℕ
  pub output_if : ℕ
  pub bytes : ℕ
  pub packets : ℕ
  pub bytes_reported : Bool
  pub packets_reported : Bool
  pub flows : ℕ
  pub flows_reported : Bool
  pub src_as : ℕ
  pub dst_as : ℕ
  pub src_mask : ℕ
  pub dst_mask : ℕ
  pub start : Time
  pub end : Time
  pub sampling_rate : ℕ
  pub app_id : ℕ
  pub app_name : Text
  pub app_category : Text
  pub src_flagged : Bool
  pub dst_flagged : Bool
  pub src_vlan : ℕ
  pub dst_vlan : ℕ
  pub src_country : Text
  pub dst_country : Text

-- The zero value of the struct.
abbrev pub zero_record : Record
zero_record = record {
  exporter = no_addr;
  version = version_unknown;
  odid = 0;
  src_addr = no_addr;
  dst_addr = no_addr;
  src_port = 0;
  dst_port = 0;
  protocol = 0;
  direction = direction_unknown;
  tos = 0;
  tos_reported = false;
  tcp_flags = 0;
  tcp_flags_reported = false;
  input_if = 0;
  output_if = 0;
  bytes = 0;
  packets = 0;
  bytes_reported = false;
  packets_reported = false;
  flows = 0;
  flows_reported = false;
  src_as = 0;
  dst_as = 0;
  src_mask = 0;
  dst_mask = 0;
  start = 0;
  end = 0;
  sampling_rate = 0;
  app_id = 0;
  app_name = [];
  app_category = [];
  src_flagged = false;
  dst_flagged = false;
  src_vlan = 0;
  dst_vlan = 0;
  src_country = [];
  dst_country = [];
}

unfoldable pub is_netflow_v8 : Version → Bool
is_netflow_v8 netflow_v8 = true
is_netflow_v8 _ = false

-- `Record.Aggregated`
unfoldable pub aggregated : Record → Bool
unfolding is_netflow_v8
aggregated r = is_netflow_v8 r.version || r.flows_reported

-- `Time.Sub`, which saturates at the ends of int64
unfoldable pub time_sub : Time → Time → ℤ
time_sub a b =
    if leb b a then pos (min (a - b) (2 ^ 63 - 1)) else negsuc (min (b - a - 1) (2 ^ 63 - 1))

-- `Record.Duration`
unfoldable pub duration : Record → Option ℤ
unfolding time_sub
duration r = if nat_eqb r.start 0 || nat_eqb r.end 0 then none else some (time_sub r.end r.start)

-- `saturatingProduct`: `bits.Mul64` gives the two halves of the product.
unfoldable pub saturating_product : ℕ → ℕ → ℕ
saturating_product count rate =
    let hi = count * rate / 2 ^ 64 in
    let lo = count * rate % 2 ^ 64 in if nat_eqb hi 0 then lo else 2 ^ 64 - 1

-- `Record.Corrected`: the bytes and the packets
unfoldable pub corrected : Record → ℕ × ℕ
unfolding saturating_product
corrected r =
    let rate = if nat_eqb r.sampling_rate 0 then 1 else r.sampling_rate in
    (saturating_product r.bytes rate, saturating_product r.packets rate)
