-- ===== src/Decoder/AggregatedRecords.antt =====
-- internal/decoder/netflow8.go: the readers of the records of each aggregation method of NetFlow v8. A
-- read outside a slice is a panic, `none`.
pub mod Layouts
pub mod Reading
use xflow_exporter.Common.{ℕ, Bool, true, Option, none, some, List}
use xflow_exporter.Common.Bytes.{u8_at, be16_at, be32_at, ◌>>=◌}
use xflow_exporter.Flow.{v4, Record}

-- `readV8Common`
unfoldable pub read_v8_common : List ℕ → Record → Option Record
read_v8_common raw r = do
  flows ← be32_at raw 0
  packets ← be32_at raw 4
  bytes ← be32_at raw 8
  some (record r {
    flows = flows;
    packets = packets;
    bytes = bytes;
    bytes_reported = true;
    packets_reported = true;
  })

-- `readV8AS`
unfoldable pub read_v8_as : List ℕ → Record → Option Record
read_v8_as raw r = do
  r' ← read_v8_common raw r
  src_as ← be16_at raw 20
  dst_as ← be16_at raw 22
  input_if ← be16_at raw 24
  output_if ← be16_at raw 26
  some (record r' { src_as = src_as; dst_as = dst_as; input_if = input_if; output_if = output_if })

-- `readV8ProtoPort`
unfoldable pub read_v8_proto_port : List ℕ → Record → Option Record
read_v8_proto_port raw r = do
  r' ← read_v8_common raw r
  protocol ← u8_at raw 20
  src_port ← be16_at raw 24
  dst_port ← be16_at raw 26
  some (record r' { protocol = protocol; src_port = src_port; dst_port = dst_port })

-- `readV8SrcPrefix`
unfoldable pub read_v8_src_prefix : List ℕ → Record → Option Record
read_v8_src_prefix raw r = do
  r' ← read_v8_common raw r
  src_addr ← be32_at raw 20
  src_mask ← u8_at raw 24
  src_as ← be16_at raw 26
  input_if ← be16_at raw 28
  some (record r' {
    src_addr = v4 src_addr;
    src_mask = src_mask;
    src_as = src_as;
    input_if = input_if;
  })

-- `readV8DstPrefix`
unfoldable pub read_v8_dst_prefix : List ℕ → Record → Option Record
read_v8_dst_prefix raw r = do
  r' ← read_v8_common raw r
  dst_addr ← be32_at raw 20
  dst_mask ← u8_at raw 24
  dst_as ← be16_at raw 26
  output_if ← be16_at raw 28
  some (record r' {
    dst_addr = v4 dst_addr;
    dst_mask = dst_mask;
    dst_as = dst_as;
    output_if = output_if;
  })

-- `readV8Prefix`
unfoldable pub read_v8_prefix : List ℕ → Record → Option Record
read_v8_prefix raw r = do
  r' ← read_v8_common raw r
  src_addr ← be32_at raw 20
  dst_addr ← be32_at raw 24
  dst_mask ← u8_at raw 28
  src_mask ← u8_at raw 29
  src_as ← be16_at raw 32
  dst_as ← be16_at raw 34
  input_if ← be16_at raw 36
  output_if ← be16_at raw 38
  some (record r' {
    src_addr = v4 src_addr;
    dst_addr = v4 dst_addr;
    dst_mask = dst_mask;
    src_mask = src_mask;
    src_as = src_as;
    dst_as = dst_as;
    input_if = input_if;
    output_if = output_if;
  })

-- `readV8DestOnly`
unfoldable pub read_v8_dest_only : List ℕ → Record → Option Record
read_v8_dest_only raw r = do
  dst_addr ← be32_at raw 0
  packets ← be32_at raw 4
  bytes ← be32_at raw 8
  output_if ← be16_at raw 20
  tos ← u8_at raw 22
  some (record r {
    dst_addr = v4 dst_addr;
    packets = packets;
    bytes = bytes;
    bytes_reported = true;
    packets_reported = true;
    flows = 1;
    output_if = output_if;
    tos = tos;
    tos_reported = true;
  })

-- `readV8SrcDst`
unfoldable pub read_v8_src_dst : List ℕ → Record → Option Record
read_v8_src_dst raw r = do
  dst_addr ← be32_at raw 0
  src_addr ← be32_at raw 4
  packets ← be32_at raw 8
  bytes ← be32_at raw 12
  output_if ← be16_at raw 24
  input_if ← be16_at raw 26
  tos ← u8_at raw 28
  some (record r {
    dst_addr = v4 dst_addr;
    src_addr = v4 src_addr;
    packets = packets;
    bytes = bytes;
    bytes_reported = true;
    packets_reported = true;
    flows = 1;
    output_if = output_if;
    input_if = input_if;
    tos = tos;
    tos_reported = true;
  })

-- `readV8FullFlow`
unfoldable pub read_v8_full_flow : List ℕ → Record → Option Record
read_v8_full_flow raw r = do
  dst_addr ← be32_at raw 0
  src_addr ← be32_at raw 4
  dst_port ← be16_at raw 8
  src_port ← be16_at raw 10
  packets ← be32_at raw 12
  bytes ← be32_at raw 16
  output_if ← be16_at raw 28
  input_if ← be16_at raw 30
  tos ← u8_at raw 32
  protocol ← u8_at raw 33
  some (record r {
    dst_addr = v4 dst_addr;
    src_addr = v4 src_addr;
    dst_port = dst_port;
    src_port = src_port;
    packets = packets;
    bytes = bytes;
    bytes_reported = true;
    packets_reported = true;
    flows = 1;
    output_if = output_if;
    input_if = input_if;
    tos = tos;
    tos_reported = true;
    protocol = protocol;
  })

-- `readV8TosAS`
unfoldable pub read_v8_tos_as : List ℕ → Record → Option Record
read_v8_tos_as raw r = do
  r' ← read_v8_as raw r
  tos ← u8_at raw 28
  some (record r' { tos = tos; tos_reported = true })

-- `readV8TosProtoPort`
unfoldable pub read_v8_tos_proto_port : List ℕ → Record → Option Record
read_v8_tos_proto_port raw r = do
  r' ← read_v8_common raw r
  protocol ← u8_at raw 20
  tos ← u8_at raw 21
  src_port ← be16_at raw 24
  dst_port ← be16_at raw 26
  input_if ← be16_at raw 28
  output_if ← be16_at raw 30
  some (record r' {
    protocol = protocol;
    tos = tos;
    tos_reported = true;
    src_port = src_port;
    dst_port = dst_port;
    input_if = input_if;
    output_if = output_if;
  })

-- `readV8TosSrcPrefix`
unfoldable pub read_v8_tos_src_prefix : List ℕ → Record → Option Record
read_v8_tos_src_prefix raw r = do
  r' ← read_v8_common raw r
  src_addr ← be32_at raw 20
  src_mask ← u8_at raw 24
  tos ← u8_at raw 25
  src_as ← be16_at raw 26
  input_if ← be16_at raw 28
  some (record r' {
    src_addr = v4 src_addr;
    src_mask = src_mask;
    tos = tos;
    tos_reported = true;
    src_as = src_as;
    input_if = input_if;
  })

-- `readV8TosDstPrefix`
unfoldable pub read_v8_tos_dst_prefix : List ℕ → Record → Option Record
read_v8_tos_dst_prefix raw r = do
  r' ← read_v8_common raw r
  dst_addr ← be32_at raw 20
  dst_mask ← u8_at raw 24
  tos ← u8_at raw 25
  dst_as ← be16_at raw 26
  output_if ← be16_at raw 28
  some (record r' {
    dst_addr = v4 dst_addr;
    dst_mask = dst_mask;
    tos = tos;
    tos_reported = true;
    dst_as = dst_as;
    output_if = output_if;
  })

-- `readV8TosPrefix`
unfoldable pub read_v8_tos_prefix : List ℕ → Record → Option Record
read_v8_tos_prefix raw r = do
  r' ← read_v8_common raw r
  src_addr ← be32_at raw 20
  dst_addr ← be32_at raw 24
  dst_mask ← u8_at raw 28
  src_mask ← u8_at raw 29
  tos ← u8_at raw 30
  src_as ← be16_at raw 32
  dst_as ← be16_at raw 34
  input_if ← be16_at raw 36
  output_if ← be16_at raw 38
  some (record r' {
    src_addr = v4 src_addr;
    dst_addr = v4 dst_addr;
    dst_mask = dst_mask;
    src_mask = src_mask;
    tos = tos;
    tos_reported = true;
    src_as = src_as;
    dst_as = dst_as;
    input_if = input_if;
    output_if = output_if;
  })

-- `readV8PrefixPort`
unfoldable pub read_v8_prefix_port : List ℕ → Record → Option Record
read_v8_prefix_port raw r = do
  r' ← read_v8_common raw r
  src_addr ← be32_at raw 20
  dst_addr ← be32_at raw 24
  dst_mask ← u8_at raw 28
  src_mask ← u8_at raw 29
  tos ← u8_at raw 30
  protocol ← u8_at raw 31
  src_port ← be16_at raw 32
  dst_port ← be16_at raw 34
  input_if ← be16_at raw 36
  output_if ← be16_at raw 38
  some (record r' {
    src_addr = v4 src_addr;
    dst_addr = v4 dst_addr;
    dst_mask = dst_mask;
    src_mask = src_mask;
    tos = tos;
    tos_reported = true;
    protocol = protocol;
    src_port = src_port;
    dst_port = dst_port;
    input_if = input_if;
    output_if = output_if;
  })
