-- ===== src/Decoder/SampledPackets.antt =====
-- internal/decoder/sflow5.go: the records of a flow sample that describe its packet, and the observation
-- point of the sample. A read outside a slice is a panic, `none`; a record that does not parse is
-- `some none`.
use xflow_exporter.Common.{
  ℕ, ◌+◌, ◌-◌, ◌/◌, ◌%◌, ◌^◌, Bool, true, false, not, ◌&&◌, ◌||◌, Option, none, some, List,
  if◌then◌else◌, ltb, leb, nat_eqb, length,
}
use xflow_exporter.Common.Bytes.{word32, ◌>>=◌}
use xflow_exporter.Flow.{Addr, v4, Record, Direction, direction_unknown, ingress, egress}
use xflow_exporter.Decoder.Packets.{read_ethernet_frame, read_ip_packet, addr_from16, word128}
use xflow_exporter.Decoder.Fields.{or_zero}
use xflow_exporter.Decoder.ByteReader.{new_byte_reader, read_word, take_bytes, skip_bytes}

-- `sflowIfValueMask`
abbrev pub if_value_mask : ℕ
if_value_mask = 2 ^ 30 - 1

-- `sflowIfIndex`
unfoldable pub sflow_if_index : ℕ → ℕ → ℕ
sflow_if_index format value =
    if not (nat_eqb format 0) || nat_eqb value if_value_mask then 0 else value

-- `sflowDirection`
unfoldable pub sflow_direction : ℕ → ℕ → ℕ → Direction
sflow_direction source input_if output_if =
    let index = source % 2 ^ 32 in
    if not (nat_eqb (source / 2 ^ 32) 0)
    then direction_unknown
    else if nat_eqb index 0
    then direction_unknown
    else if nat_eqb index input_if && not (nat_eqb index output_if)
    then ingress
    else if nat_eqb index output_if && not (nat_eqb index input_if)
    then egress
    else direction_unknown

abbrev pub raw_packet_header : ℕ
raw_packet_header = 1

-- `sflowPacketRecordKind`; `none` is its `false`.
unfoldable pub packet_record_kind : ℕ → Option ℕ
packet_record_kind record_type =
    let format = record_type % 2 ^ 12 in
    if not (nat_eqb (record_type / 2 ^ 12) 0)
    then none
    else if nat_eqb format raw_packet_header || nat_eqb format 3 || nat_eqb format 4
    then some format
    else none

-- `sflowHeaderProtocol`
unfoldable pub header_protocol : List ℕ → Option ℕ
header_protocol bytes = if ltb (length bytes) 4 then none else some (word32 bytes 0)

-- `sampledFieldsFit`
unfoldable pub sampled_fields_fit : ℕ → ℕ → ℕ → ℕ → ℕ → Bool
sampled_fields_fit protocol src_port dst_port tcp_flags tos =
    leb protocol 255 && leb src_port 65535 && leb dst_port 65535 && leb tcp_flags 255 && leb tos 255

abbrev pub walked_frame : Option (Bool × Record) → Option (Option Record)
walked_frame none = none
walked_frame (some (false, r)) = some none
walked_frame (some (true, r)) = some (some r)

-- The header behind the frame length of a raw packet header record.
unfoldable pub read_header : ℕ → ℕ → Option (List ℕ) → Record → Option (Option Record)
read_header protocol frame_length none r = some none
read_header protocol frame_length (some header) r =
    let r' : Record = record r { bytes = frame_length } in
    if nat_eqb protocol 1
    then walked_frame (read_ethernet_frame header r')
    else read_ip_packet header r' >>= λ walked. some (some walked)

-- `readSFlowRawHeader`
unfoldable pub read_raw_header : List ℕ → Record → Option (Option Record)
read_raw_header bytes r =
    let (protocol, r1) = read_word (new_byte_reader bytes) in
    let (frame_length, r2) = read_word r1 in
    let (header_len, r3) = read_word (skip_bytes 4 r2) in
    elim header_len [
      | none ↦ some none
      | some n ↦ read_header (or_zero protocol) (or_zero frame_length) (take_bytes n r3).0 r
    ]

-- The fields that both pre-parsed records carry.
pub record Sampled : Type 0 where
  pub size : ℕ
  pub protocol : ℕ
  pub src : Addr
  pub dst : Addr
  pub src_port : ℕ
  pub dst_port : ℕ
  pub tcp_flags : ℕ
  pub tos : ℕ

-- The end of both readers, once every field was there.
unfoldable pub take_sampled : ℕ → Sampled → Record → Option Record
take_sampled most f r =
    if ltb most f.size
      || not (sampled_fields_fit f.protocol f.src_port f.dst_port f.tcp_flags f.tos)
    then none
    else some (record r {
      bytes = f.size;
      protocol = f.protocol;
      src_port = f.src_port;
      dst_port = f.dst_port;
      tcp_flags = f.tcp_flags;
      tcp_flags_reported = true;
      tos = f.tos;
      tos_reported = true;
      src_addr = f.src;
      dst_addr = f.dst;
    })

-- The addresses and the last word, each of which both readers ask for.
abbrev pub all_there : Option (List ℕ) → Option (List ℕ) → Option ℕ → Option (List ℕ × List ℕ × ℕ)
all_there (some src) (some dst) (some last) = some (src, dst, last)
all_there _ _ _ = none

-- A pre-parsed record with addresses of so many bytes, no larger than `most`.
unfoldable pub read_sampled : ℕ → ℕ → (List ℕ → Addr) → List ℕ → Record → Option Record
read_sampled addr_len most addr_of bytes r =
    let (size, r1) = read_word (new_byte_reader bytes) in
    let (protocol, r2) = read_word r1 in
    let (src, r3) = take_bytes addr_len r2 in
    let (dst, r4) = take_bytes addr_len r3 in
    let (src_port, r5) = read_word r4 in
    let (dst_port, r6) = read_word r5 in
    let (tcp_flags, r7) = read_word r6 in
    let (tos, r8) = read_word r7 in
    elim (all_there src dst tos) [
      | none ↦ none
      | some (src', dst', tos') ↦
          take_sampled most
            (record {
              size = or_zero size;
              protocol = or_zero protocol;
              src = addr_of src';
              dst = addr_of dst';
              src_port = or_zero src_port;
              dst_port = or_zero dst_port;
              tcp_flags = or_zero tcp_flags;
              tos = tos';
            })
            r
    ]

-- `readSFlowSampledIPv4`
abbrev pub read_sampled_ipv4 : List ℕ → Record → Option Record
read_sampled_ipv4 bytes r = read_sampled 4 65535 (λ src. v4 (word32 src 0)) bytes r

-- `readSFlowSampledIPv6`
abbrev pub read_sampled_ipv6 : List ℕ → Record → Option Record
read_sampled_ipv6 bytes r =
    read_sampled 16 (40 + 65535) (λ src. addr_from16 (word128 src 0)) bytes r
