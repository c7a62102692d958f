-- ===== src/Decoder/AggregatedRecords/Layouts.antt =====
-- The records of each aggregation method of NetFlow v8, told by offset: what the readers of
-- internal/decoder/netflow8.go are to find.
use xflow_exporter.Common.{ℕ, zero, suc, true, Option, none, List, [], ◌∷◌, get_elem?}
use xflow_exporter.Common.Bytes.{byte_or, word16, word32}
use xflow_exporter.Flow.{v4, Record}

-- The bytes of one record, the offset of its first instant, and the fields that it gives.
pub record Layout : Type 0 where
  pub size : ℕ
  pub first : ℕ
  pub fields : List ℕ → Record → Record

abbrev pub as_fields : List ℕ → Record → Record
as_fields raw r = record r {
  flows = word32 raw 0;
  packets = word32 raw 4;
  bytes = word32 raw 8;
  bytes_reported = true;
  packets_reported = true;
  src_as = word16 raw 20;
  dst_as = word16 raw 22;
  input_if = word16 raw 24;
  output_if = word16 raw 26;
}

abbrev pub proto_port_fields : List ℕ → Record → Record
proto_port_fields raw r = record r {
  flows = word32 raw 0;
  packets = word32 raw 4;
  bytes = word32 raw 8;
  bytes_reported = true;
  packets_reported = true;
  protocol = byte_or raw 20;
  src_port = word16 raw 24;
  dst_port = word16 raw 26;
}

abbrev pub src_prefix_fields : List ℕ → Record → Record
src_prefix_fields raw r = record r {
  flows = word32 raw 0;
  packets = word32 raw 4;
  bytes = word32 raw 8;
  bytes_reported = true;
  packets_reported = true;
  src_addr = v4 (word32 raw 20);
  src_mask = byte_or raw 24;
  src_as = word16 raw 26;
  input_if = word16 raw 28;
}

abbrev pub dst_prefix_fields : List ℕ → Record → Record
dst_prefix_fields raw r = record r {
  flows = word32 raw 0;
  packets = word32 raw 4;
  bytes = word32 raw 8;
  bytes_reported = true;
  packets_reported = true;
  dst_addr = v4 (word32 raw 20);
  dst_mask = byte_or raw 24;
  dst_as = word16 raw 26;
  output_if = word16 raw 28;
}

abbrev pub prefix_fields : List ℕ → Record → Record
prefix_fields raw r = record r {
  flows = word32 raw 0;
  packets = word32 raw 4;
  bytes = word32 raw 8;
  bytes_reported = true;
  packets_reported = true;
  src_addr = v4 (word32 raw 20);
  dst_addr = v4 (word32 raw 24);
  dst_mask = byte_or raw 28;
  src_mask = byte_or raw 29;
  src_as = word16 raw 32;
  dst_as = word16 raw 34;
  input_if = word16 raw 36;
  output_if = word16 raw 38;
}

abbrev pub dest_only_fields : List ℕ → Record → Record
dest_only_fields raw r = record r {
  dst_addr = v4 (word32 raw 0);
  packets = word32 raw 4;
  bytes = word32 raw 8;
  bytes_reported = true;
  packets_reported = true;
  flows = 1;
  output_if = word16 raw 20;
  tos = byte_or raw 22;
  tos_reported = true;
}

abbrev pub src_dst_fields : List ℕ → Record → Record
src_dst_fields raw r = record r {
  dst_addr = v4 (word32 raw 0);
  src_addr = v4 (word32 raw 4);
  packets = word32 raw 8;
  bytes = word32 raw 12;
  bytes_reported = true;
  packets_reported = true;
  flows = 1;
  output_if = word16 raw 24;
  input_if = word16 raw 26;
  tos = byte_or raw 28;
  tos_reported = true;
}

abbrev pub full_flow_fields : List ℕ → Record → Record
full_flow_fields raw r = record r {
  dst_addr = v4 (word32 raw 0);
  src_addr = v4 (word32 raw 4);
  dst_port = word16 raw 8;
  src_port = word16 raw 10;
  packets = word32 raw 12;
  bytes = word32 raw 16;
  bytes_reported = true;
  packets_reported = true;
  flows = 1;
  output_if = word16 raw 28;
  input_if = word16 raw 30;
  tos = byte_or raw 32;
  tos_reported = true;
  protocol = byte_or raw 33;
}

abbrev pub tos_as_fields : List ℕ → Record → Record
tos_as_fields raw r = record r {
  flows = word32 raw 0;
  packets = word32 raw 4;
  bytes = word32 raw 8;
  bytes_reported = true;
  packets_reported = true;
  src_as = word16 raw 20;
  dst_as = word16 raw 22;
  input_if = word16 raw 24;
  output_if = word16 raw 26;
  tos = byte_or raw 28;
  tos_reported = true;
}

abbrev pub tos_proto_port_fields : List ℕ → Record → Record
tos_proto_port_fields raw r = record r {
  flows = word32 raw 0;
  packets = word32 raw 4;
  bytes = word32 raw 8;
  bytes_reported = true;
  packets_reported = true;
  protocol = byte_or raw 20;
  tos = byte_or raw 21;
  tos_reported = true;
  src_port = word16 raw 24;
  dst_port = word16 raw 26;
  input_if = word16 raw 28;
  output_if = word16 raw 30;
}

abbrev pub tos_src_prefix_fields : List ℕ → Record → Record
tos_src_prefix_fields raw r = record r {
  flows = word32 raw 0;
  packets = word32 raw 4;
  bytes = word32 raw 8;
  bytes_reported = true;
  packets_reported = true;
  src_addr = v4 (word32 raw 20);
  src_mask = byte_or raw 24;
  tos = byte_or raw 25;
  tos_reported = true;
  src_as = word16 raw 26;
  input_if = word16 raw 28;
}

abbrev pub tos_dst_prefix_fields : List ℕ → Record → Record
tos_dst_prefix_fields raw r = record r {
  flows = word32 raw 0;
  packets = word32 raw 4;
  bytes = word32 raw 8;
  bytes_reported = true;
  packets_reported = true;
  dst_addr = v4 (word32 raw 20);
  dst_mask = byte_or raw 24;
  tos = byte_or raw 25;
  tos_reported = true;
  dst_as = word16 raw 26;
  output_if = word16 raw 28;
}

abbrev pub tos_prefix_fields : List ℕ → Record → Record
tos_prefix_fields raw r = record r {
  flows = word32 raw 0;
  packets = word32 raw 4;
  bytes = word32 raw 8;
  bytes_reported = true;
  packets_reported = true;
  src_addr = v4 (word32 raw 20);
  dst_addr = v4 (word32 raw 24);
  dst_mask = byte_or raw 28;
  src_mask = byte_or raw 29;
  tos = byte_or raw 30;
  tos_reported = true;
  src_as = word16 raw 32;
  dst_as = word16 raw 34;
  input_if = word16 raw 36;
  output_if = word16 raw 38;
}

abbrev pub prefix_port_fields : List ℕ → Record → Record
prefix_port_fields raw r = record r {
  flows = word32 raw 0;
  packets = word32 raw 4;
  bytes = word32 raw 8;
  bytes_reported = true;
  packets_reported = true;
  src_addr = v4 (word32 raw 20);
  dst_addr = v4 (word32 raw 24);
  dst_mask = byte_or raw 28;
  src_mask = byte_or raw 29;
  tos = byte_or raw 30;
  tos_reported = true;
  protocol = byte_or raw 31;
  src_port = word16 raw 32;
  dst_port = word16 raw 34;
  input_if = word16 raw 36;
  output_if = word16 raw 38;
}

-- The methods from 1 on.
abbrev pub layouts : List Layout
layouts =
    record { size = 28; first = 12; fields = as_fields }
    ∷ record { size = 28; first = 12; fields = proto_port_fields }
    ∷ record { size = 32; first = 12; fields = src_prefix_fields }
    ∷ record { size = 32; first = 12; fields = dst_prefix_fields }
    ∷ record { size = 40; first = 12; fields = prefix_fields }
    ∷ record { size = 32; first = 12; fields = dest_only_fields }
    ∷ record { size = 40; first = 16; fields = src_dst_fields }
    ∷ record { size = 44; first = 20; fields = full_flow_fields }
    ∷ record { size = 32; first = 12; fields = tos_as_fields }
    ∷ record { size = 32; first = 12; fields = tos_proto_port_fields }
    ∷ record { size = 32; first = 12; fields = tos_src_prefix_fields }
    ∷ record { size = 32; first = 12; fields = tos_dst_prefix_fields }
    ∷ record { size = 40; first = 12; fields = tos_prefix_fields }
    ∷ record { size = 40; first = 12; fields = prefix_port_fields }
    ∷ []

abbrev pub layout_of : ℕ → Option Layout
layout_of zero = none
layout_of (suc n) = get_elem? layouts n
