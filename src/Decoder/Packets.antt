-- ===== src/Decoder/Packets.antt =====
-- internal/decoder/l2l3.go: the walk over a sampled packet header. A read outside a slice is a panic,
-- `none`.
pub mod Walking
use Prim.Native.Nat.{min}
use xflow_exporter.Common.{
  ℕ, ◌+◌, ◌*◌, ◌/◌, ◌%◌, ◌^◌, Bool, true, false, not, ◌||◌, Option, none, some, List, [], ◌∷◌,
  if◌then◌else◌, ltb, leb, nat_eqb, length,
}
use xflow_exporter.Common.Bytes.{
  u8_at, be16_at, be32_at, slice_from, ◌>>=◌, byte_or, word32, word16,
}
use xflow_exporter.Flow.{Addr, v4, v6, Record}

abbrev pub ether_type_ipv4 : ℕ
ether_type_ipv4 = 2048

abbrev pub ether_type_ipv6 : ℕ
ether_type_ipv6 = 34525

abbrev pub ether_type_vlan : ℕ
ether_type_vlan = 33024

abbrev pub ether_type_qinq : ℕ
ether_type_qinq = 34984

abbrev pub is_tag : ℕ → Bool
is_tag ether_type = nat_eqb ether_type ether_type_vlan || nat_eqb ether_type ether_type_qinq

-- The two ports of a segment that holds them.
unfoldable pub read_ports : List ℕ → Record → Option Record
read_ports segment r = do
  src_port ← be16_at segment 0
  dst_port ← be16_at segment 2
  some (record r { src_port = src_port; dst_port = dst_port })

-- The TCP flags, where the segment covers them.
unfoldable pub read_flags : List ℕ → Record → Option Record
read_flags segment r =
    if ltb 13 (length segment)
    then (u8_at segment 13 >>= λ flags.
        some (record r { tcp_flags = flags; tcp_flags_reported = true }))
    else some r

-- `readTransport`
unfoldable pub read_transport : List ℕ → Record → Option Record
unfolding read_ports read_flags
read_transport segment r =
    if nat_eqb r.protocol 6
    then (if ltb (length segment) 4
        then some r
        else read_ports segment r >>= λ r'. read_flags segment r')
    else if nat_eqb r.protocol 17
    then (if ltb (length segment) 4 then some r else read_ports segment r)
    else some r

-- Only the first fragment carries the transport header.
unfoldable pub read_first_fragment : ℕ → ℕ → List ℕ → Record → Option Record
unfolding read_transport
read_first_fragment fragment header_len packet r =
    if nat_eqb (fragment % 2 ^ 13) 0
    then (slice_from packet header_len >>= λ segment. read_transport segment r)
    else some r

-- The fields of an IPv4 header of the given length, and what follows its first fragment.
unfoldable pub read_ipv4_fields : ℕ → List ℕ → Record → Option Record
unfolding read_first_fragment
read_ipv4_fields header_len packet r = do
  tos ← u8_at packet 1
  protocol ← u8_at packet 9
  src_addr ← be32_at packet 12
  dst_addr ← be32_at packet 16
  fragment ← be16_at packet 6
  let r' : Record = record r {
    tos = tos;
    tos_reported = true;
    protocol = protocol;
    src_addr = v4 src_addr;
    dst_addr = v4 dst_addr;
  }
  read_first_fragment fragment header_len packet r'

-- `readIPv4Header`
unfoldable pub read_ipv4_header : List ℕ → Record → Option Record
unfolding read_ipv4_fields
read_ipv4_header packet r =
    if ltb (length packet) 20
    then some r
    else u8_at packet 0 >>= λ first.
        if ltb (first % 16 * 4) 20 || ltb (length packet) (first % 16 * 4)
        then some r
        else read_ipv4_fields (first % 16 * 4) packet r

abbrev pub word128 : List ℕ → ℕ → ℕ
word128 p off =
    ((word32 p off * 2 ^ 32 + word32 p (off + 4)) * 2 ^ 32 + word32 p (off + 8)) * 2 ^ 32
    + word32 p (off + 12)

-- `[16]byte(p[off:off+16])` as one number
abbrev pub be128_at : List ℕ → ℕ → Option ℕ
be128_at p off = if leb (off + 16) (length p) then some (word128 p off) else none

-- `addrFrom16` of internal/decoder/fields.go: an IPv4-mapped address in its IPv4 form.
unfoldable pub addr_from16 : ℕ → Addr
addr_from16 value = if nat_eqb (value / 2 ^ 32) 65535 then v4 (value % 2 ^ 32) else v6 value []

-- `readIPv6Header`; the traffic class straddles the first two bytes.
unfoldable pub read_ipv6_header : List ℕ → Record → Option Record
unfolding read_transport
read_ipv6_header packet r = if ltb (length packet) 40 then some r else do
  first ← u8_at packet 0
  second ← u8_at packet 1
  protocol ← u8_at packet 6
  src_addr ← be128_at packet 8
  dst_addr ← be128_at packet 24
  segment ← slice_from packet 40
  read_transport segment (record r {
    tos = first * 16 % 256 + second / 16;
    tos_reported = true;
    protocol = protocol;
    src_addr = addr_from16 src_addr;
    dst_addr = addr_from16 dst_addr;
  })

-- `readIPPacket`
unfoldable pub read_ip_packet : List ℕ → Record → Option Record
read_ip_packet packet r =
    if nat_eqb (length packet) 0
    then some r
    else u8_at packet 0 >>= λ first.
        if nat_eqb (first / 16) 4
        then read_ipv4_header packet r
        else if nat_eqb (first / 16) 6
        then read_ipv6_header packet r
        else some r

-- The loop over the VLAN tags: the EtherType behind them and its payload, `none` where a tag is cut
-- short.
unfoldable pub walk_tags : ℕ → List ℕ → Option (ℕ × List ℕ)
walk_tags ether_type (a ∷ b ∷ c ∷ d ∷ rest) =
    let deeper = walk_tags (c * 256 + d) rest in
    if is_tag ether_type then deeper else some (ether_type, a ∷ b ∷ c ∷ d ∷ rest)
walk_tags ether_type short = if is_tag ether_type then none else some (ether_type, short)

abbrev pub read_network : Option (ℕ × List ℕ) → Record → Option Record
read_network none r = some r
read_network (some (ether_type, payload)) r =
    if nat_eqb ether_type ether_type_ipv4
    then read_ipv4_header payload r
    else if nat_eqb ether_type ether_type_ipv6
    then read_ipv6_header payload r
    else some r

-- `readEthernetFrame`: whether the Ethernet header fits, and the record
unfoldable pub read_ethernet_frame : List ℕ → Record → Option (Bool × Record)
unfolding walk_tags
read_ethernet_frame frame r = if ltb (length frame) 14 then some (false, r) else do
  ether_type ← be16_at frame 12
  payload ← slice_from frame 14
  r' ← read_network (walk_tags ether_type payload) r
  some (true, r')
