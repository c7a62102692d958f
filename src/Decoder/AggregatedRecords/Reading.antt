-- ===== src/Decoder/AggregatedRecords/Reading.antt =====
-- Each reader of internal/decoder/netflow8.go finds the fields of its method's layout.
use xflow_exporter.Common.{ℕ, ◌≤◌, ◌≡◌, refl, Option, some, List, length, arith}
use xflow_exporter.Common.Bytes.{u8_at-inside, be16_at-inside, be32_at-inside}
use xflow_exporter.Flow.{Record}
use xflow_exporter.Decoder.AggregatedRecords.{
  read_v8_common, read_v8_as, read_v8_proto_port, read_v8_src_prefix, read_v8_dst_prefix,
  read_v8_prefix, read_v8_dest_only, read_v8_src_dst, read_v8_full_flow, read_v8_tos_as,
  read_v8_tos_proto_port, read_v8_tos_src_prefix, read_v8_tos_dst_prefix, read_v8_tos_prefix,
  read_v8_prefix_port,
}
use xflow_exporter.Decoder.AggregatedRecords.Layouts.{
  as_fields, proto_port_fields, src_prefix_fields, dst_prefix_fields, prefix_fields,
  dest_only_fields, src_dst_fields, full_flow_fields, tos_as_fields, tos_proto_port_fields,
  tos_src_prefix_fields, tos_dst_prefix_fields, tos_prefix_fields, prefix_port_fields,
}

-- The reader gives these fields on every record of the length.
abbrev pub Reads : ℕ → (List ℕ → Record → Option Record) → (List ℕ → Record → Record) → Type 0
Reads size read fields =
    (raw : List ℕ) (r : Record) → size ≤ length raw → read raw r ≡ some (fields raw r)

pub Reads-as : Reads 28 read_v8_as as_fields
unfolding read_v8_as read_v8_common
Reads-as raw r h =
    rw
      (
        be32_at-inside raw 0 (omega (arith, h)),
        be32_at-inside raw 4 (omega (arith, h)),
        be32_at-inside raw 8 (omega (arith, h)),
        be16_at-inside raw 20 (omega (arith, h)),
        be16_at-inside raw 22 (omega (arith, h)),
        be16_at-inside raw 24 (omega (arith, h)),
        be16_at-inside raw 26 (omega (arith, h)),
      )
      refl

pub Reads-proto_port : Reads 28 read_v8_proto_port proto_port_fields
unfolding read_v8_proto_port read_v8_common
Reads-proto_port raw r h =
    rw
      (
        be32_at-inside raw 0 (omega (arith, h)),
        be32_at-inside raw 4 (omega (arith, h)),
        be32_at-inside raw 8 (omega (arith, h)),
        u8_at-inside raw 20 (omega (arith, h)),
        be16_at-inside raw 24 (omega (arith, h)),
        be16_at-inside raw 26 (omega (arith, h)),
      )
      refl

pub Reads-src_prefix : Reads 32 read_v8_src_prefix src_prefix_fields
unfolding read_v8_src_prefix read_v8_common
Reads-src_prefix raw r h =
    rw
      (
        be32_at-inside raw 0 (omega (arith, h)),
        be32_at-inside raw 4 (omega (arith, h)),
        be32_at-inside raw 8 (omega (arith, h)),
        be32_at-inside raw 20 (omega (arith, h)),
        u8_at-inside raw 24 (omega (arith, h)),
        be16_at-inside raw 26 (omega (arith, h)),
        be16_at-inside raw 28 (omega (arith, h)),
      )
      refl

pub Reads-dst_prefix : Reads 32 read_v8_dst_prefix dst_prefix_fields
unfolding read_v8_dst_prefix read_v8_common
Reads-dst_prefix raw r h =
    rw
      (
        be32_at-inside raw 0 (omega (arith, h)),
        be32_at-inside raw 4 (omega (arith, h)),
        be32_at-inside raw 8 (omega (arith, h)),
        be32_at-inside raw 20 (omega (arith, h)),
        u8_at-inside raw 24 (omega (arith, h)),
        be16_at-inside raw 26 (omega (arith, h)),
        be16_at-inside raw 28 (omega (arith, h)),
      )
      refl

pub Reads-prefix : Reads 40 read_v8_prefix prefix_fields
unfolding read_v8_prefix read_v8_common
Reads-prefix raw r h =
    rw
      (
        be32_at-inside raw 0 (omega (arith, h)),
        be32_at-inside raw 4 (omega (arith, h)),
        be32_at-inside raw 8 (omega (arith, h)),
        be32_at-inside raw 20 (omega (arith, h)),
        be32_at-inside raw 24 (omega (arith, h)),
        u8_at-inside raw 28 (omega (arith, h)),
        u8_at-inside raw 29 (omega (arith, h)),
        be16_at-inside raw 32 (omega (arith, h)),
        be16_at-inside raw 34 (omega (arith, h)),
        be16_at-inside raw 36 (omega (arith, h)),
        be16_at-inside raw 38 (omega (arith, h)),
      )
      refl

pub Reads-dest_only : Reads 32 read_v8_dest_only dest_only_fields
unfolding read_v8_dest_only
Reads-dest_only raw r h =
    rw
      (
        be32_at-inside raw 0 (omega (arith, h)),
        be32_at-inside raw 4 (omega (arith, h)),
        be32_at-inside raw 8 (omega (arith, h)),
        be16_at-inside raw 20 (omega (arith, h)),
        u8_at-inside raw 22 (omega (arith, h)),
      )
      refl

pub Reads-src_dst : Reads 40 read_v8_src_dst src_dst_fields
unfolding read_v8_src_dst
Reads-src_dst raw r h =
    rw
      (
        be32_at-inside raw 0 (omega (arith, h)),
        be32_at-inside raw 4 (omega (arith, h)),
        be32_at-inside raw 8 (omega (arith, h)),
        be32_at-inside raw 12 (omega (arith, h)),
        be16_at-inside raw 24 (omega (arith, h)),
        be16_at-inside raw 26 (omega (arith, h)),
        u8_at-inside raw 28 (omega (arith, h)),
      )
      refl

pub Reads-full_flow : Reads 44 read_v8_full_flow full_flow_fields
unfolding read_v8_full_flow
Reads-full_flow raw r h =
    rw
      (
        be32_at-inside raw 0 (omega (arith, h)),
        be32_at-inside raw 4 (omega (arith, h)),
        be16_at-inside raw 8 (omega (arith, h)),
        be16_at-inside raw 10 (omega (arith, h)),
        be32_at-inside raw 12 (omega (arith, h)),
        be32_at-inside raw 16 (omega (arith, h)),
        be16_at-inside raw 28 (omega (arith, h)),
        be16_at-inside raw 30 (omega (arith, h)),
        u8_at-inside raw 32 (omega (arith, h)),
        u8_at-inside raw 33 (omega (arith, h)),
      )
      refl

pub Reads-tos_as : Reads 32 read_v8_tos_as tos_as_fields
unfolding read_v8_tos_as read_v8_as read_v8_common
Reads-tos_as raw r h =
    rw
      (
        be32_at-inside raw 0 (omega (arith, h)),
        be32_at-inside raw 4 (omega (arith, h)),
        be32_at-inside raw 8 (omega (arith, h)),
        be16_at-inside raw 20 (omega (arith, h)),
        be16_at-inside raw 22 (omega (arith, h)),
        be16_at-inside raw 24 (omega (arith, h)),
        be16_at-inside raw 26 (omega (arith, h)),
        u8_at-inside raw 28 (omega (arith, h)),
      )
      refl

pub Reads-tos_proto_port : Reads 32 read_v8_tos_proto_port tos_proto_port_fields
unfolding read_v8_tos_proto_port read_v8_common
Reads-tos_proto_port raw r h =
    rw
      (
        be32_at-inside raw 0 (omega (arith, h)),
        be32_at-inside raw 4 (omega (arith, h)),
        be32_at-inside raw 8 (omega (arith, h)),
        u8_at-inside raw 20 (omega (arith, h)),
        u8_at-inside raw 21 (omega (arith, h)),
        be16_at-inside raw 24 (omega (arith, h)),
        be16_at-inside raw 26 (omega (arith, h)),
        be16_at-inside raw 28 (omega (arith, h)),
        be16_at-inside raw 30 (omega (arith, h)),
      )
      refl

pub Reads-tos_src_prefix : Reads 32 read_v8_tos_src_prefix tos_src_prefix_fields
unfolding read_v8_tos_src_prefix read_v8_common
Reads-tos_src_prefix raw r h =
    rw
      (
        be32_at-inside raw 0 (omega (arith, h)),
        be32_at-inside raw 4 (omega (arith, h)),
        be32_at-inside raw 8 (omega (arith, h)),
        be32_at-inside raw 20 (omega (arith, h)),
        u8_at-inside raw 24 (omega (arith, h)),
        u8_at-inside raw 25 (omega (arith, h)),
        be16_at-inside raw 26 (omega (arith, h)),
        be16_at-inside raw 28 (omega (arith, h)),
      )
      refl

pub Reads-tos_dst_prefix : Reads 32 read_v8_tos_dst_prefix tos_dst_prefix_fields
unfolding read_v8_tos_dst_prefix read_v8_common
Reads-tos_dst_prefix raw r h =
    rw
      (
        be32_at-inside raw 0 (omega (arith, h)),
        be32_at-inside raw 4 (omega (arith, h)),
        be32_at-inside raw 8 (omega (arith, h)),
        be32_at-inside raw 20 (omega (arith, h)),
        u8_at-inside raw 24 (omega (arith, h)),
        u8_at-inside raw 25 (omega (arith, h)),
        be16_at-inside raw 26 (omega (arith, h)),
        be16_at-inside raw 28 (omega (arith, h)),
      )
      refl

pub Reads-tos_prefix : Reads 40 read_v8_tos_prefix tos_prefix_fields
unfolding read_v8_tos_prefix read_v8_common
Reads-tos_prefix raw r h =
    rw
      (
        be32_at-inside raw 0 (omega (arith, h)),
        be32_at-inside raw 4 (omega (arith, h)),
        be32_at-inside raw 8 (omega (arith, h)),
        be32_at-inside raw 20 (omega (arith, h)),
        be32_at-inside raw 24 (omega (arith, h)),
        u8_at-inside raw 28 (omega (arith, h)),
        u8_at-inside raw 29 (omega (arith, h)),
        u8_at-inside raw 30 (omega (arith, h)),
        be16_at-inside raw 32 (omega (arith, h)),
        be16_at-inside raw 34 (omega (arith, h)),
        be16_at-inside raw 36 (omega (arith, h)),
        be16_at-inside raw 38 (omega (arith, h)),
      )
      refl

pub Reads-prefix_port : Reads 40 read_v8_prefix_port prefix_port_fields
unfolding read_v8_prefix_port read_v8_common
Reads-prefix_port raw r h =
    rw
      (
        be32_at-inside raw 0 (omega (arith, h)),
        be32_at-inside raw 4 (omega (arith, h)),
        be32_at-inside raw 8 (omega (arith, h)),
        be32_at-inside raw 20 (omega (arith, h)),
        be32_at-inside raw 24 (omega (arith, h)),
        u8_at-inside raw 28 (omega (arith, h)),
        u8_at-inside raw 29 (omega (arith, h)),
        u8_at-inside raw 30 (omega (arith, h)),
        u8_at-inside raw 31 (omega (arith, h)),
        be16_at-inside raw 32 (omega (arith, h)),
        be16_at-inside raw 34 (omega (arith, h)),
        be16_at-inside raw 36 (omega (arith, h)),
        be16_at-inside raw 38 (omega (arith, h)),
      )
      refl
