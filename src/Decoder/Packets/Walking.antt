-- ===== src/Decoder/Packets/Walking.antt =====
-- How the walk of internal/decoder/l2l3.go ends, and what of a record it touches.
use xflow_exporter.Common.{
  ℕ, ◌+◌, ◌*◌, ◌/◌, ◌%◌, ◌^◌, ◌≤◌, ◌≡◌, refl, true, false, ◌||◌, Option, none, some, List,
  Bool-cases, inl, inr, arith, drop, ltb, leb, nat_eqb, length,
}
use xflow_exporter.Common.Bytes.{
  byte_or, word32, word16, u8_at-inside, be16_at-inside, be32_at-inside, slice_from-inside,
}
use xflow_exporter.Flow.{no_addr, v4, Record}
use xflow_exporter.Decoder.Packets.{
  read_first_fragment, read_ports, read_flags, read_transport, read_ipv4_fields, read_ipv4_header,
  read_ipv6_header, read_ip_packet, walk_tags, read_network, read_ethernet_frame, be128_at, word128,
  addr_from16,
}

-- A record without what a packet header carries.
abbrev pub apart_from_header : Record → Record
apart_from_header r = record r {
  src_addr = no_addr;
  dst_addr = no_addr;
  src_port = 0;
  dst_port = 0;
  protocol = 0;
  tos = 0;
  tos_reported = false;
  tcp_flags = 0;
  tcp_flags_reported = false;
}

-- The step ends, and leaves all else of the record alone.
abbrev pub Walks : Option Record → Record → Type 0
Walks step r = (r' : Record) × (step ≡ some r') × (apart_from_header r' ≡ apart_from_header r)

Walks-read_flags : (segment : List ℕ) (r : Record) → Walks (read_flags segment r) r
unfolding read_flags
Walks-read_flags segment r = elim (Bool-cases (ltb 13 (length segment))) [
  | inl covered ↦ rw (read_flags, covered) (_, refl, refl)
  | inr short ↦ rw (read_flags, short) (r, refl, refl)
]

ports_of : List ℕ → Record → Record
ports_of segment r = record r { src_port = word16 segment 0; dst_port = word16 segment 2 }

read_ports_lem :
    (segment : List ℕ) (r : Record)
    → ltb (length segment) 4 ≡ false
    → read_ports segment r ≡ some (ports_of segment r)
unfolding read_ports ports_of
read_ports_lem segment r h =
    rw (be16_at-inside segment 0 (ground arith), be16_at-inside segment 2 (ground arith)) refl

Walks-read_transport : (segment : List ℕ) (r : Record) → Walks (read_transport segment r) r
unfolding read_transport ports_of
Walks-read_transport segment r = elim (Bool-cases (nat_eqb r.protocol 6)) [
  | inl tcp ↦ elim (Bool-cases (ltb (length segment) 4)) [
    | inl short ↦ rw (read_transport, tcp, short) (r, refl, refl)
    | inr covered ↦
        let (r', ends, rest) = Walks-read_flags segment (ports_of segment r) in
        rw (read_transport, tcp, covered, read_ports_lem segment r covered) (r', ends, rest)
  ]
  | inr other ↦ elim (Bool-cases (nat_eqb r.protocol 17)) [
    | inr neither ↦ rw (read_transport, other, neither) (r, refl, refl)
    | inl udp ↦ elim (Bool-cases (ltb (length segment) 4)) [
      | inl short ↦ rw (read_transport, other, udp, short) (r, refl, refl)
      | inr covered ↦
          rw (read_transport, other, udp, covered, read_ports_lem segment r covered)
            (ports_of segment r, refl, refl)
    ]
  ]
]

Walks-read_first_fragment :
    (fragment header_len : ℕ) (packet : List ℕ) (r : Record)
    → header_len ≤ length packet
    → Walks (read_first_fragment fragment header_len packet r) r
unfolding read_first_fragment
Walks-read_first_fragment fragment header_len packet r h =
    elim (Bool-cases (nat_eqb (fragment % 2 ^ 13) 0)) [
      | inl leading ↦
          rw (read_first_fragment, leading, slice_from-inside packet header_len h)
            (Walks-read_transport (drop header_len packet) r)
      | inr later ↦ rw (read_first_fragment, later) (r, refl, refl)
    ]

Walks-read_ipv4_fields :
    (header_len : ℕ) (packet : List ℕ) (r : Record)
    → 20 ≤ length packet
    → header_len ≤ length packet
    → Walks (read_ipv4_fields header_len packet r) r
unfolding read_ipv4_fields
Walks-read_ipv4_fields header_len packet r h h' =
    let filled : Record = record r {
      tos = byte_or packet 1;
      tos_reported = true;
      protocol = byte_or packet 9;
      src_addr = v4 (word32 packet 12);
      dst_addr = v4 (word32 packet 16);
    } in
    rw
      (
        u8_at-inside packet 1 (omega (arith, h)),
        u8_at-inside packet 9 (omega (arith, h)),
        be32_at-inside packet 12 (omega (arith, h)),
        be32_at-inside packet 16 (omega (arith, h)),
        be16_at-inside packet 6 (omega (arith, h)),
      )
      (Walks-read_first_fragment (word16 packet 6) header_len packet filled h')

Walks-read_ipv4_header : (packet : List ℕ) (r : Record) → Walks (read_ipv4_header packet r) r
unfolding read_ipv4_header
Walks-read_ipv4_header packet r = elim (Bool-cases (ltb (length packet) 20)) [
  | inl short ↦ rw (read_ipv4_header, short) (r, refl, refl)
  | inr whole ↦
      let size = byte_or packet 0 % 16 * 4 in
      elim (Bool-cases (ltb size 20 || ltb (length packet) size)) [
        | inl odd ↦
            rw (read_ipv4_header, whole, u8_at-inside packet 0 (ground arith), odd) (r, refl, refl)
        | inr fits ↦
            rw (read_ipv4_header, whole, u8_at-inside packet 0 (ground arith), fits)
              (Walks-read_ipv4_fields size packet r (ground arith) (ground arith))
      ]
]

be128_at-inside :
    (p : List ℕ) (off : ℕ) → off + 16 ≤ length p → be128_at p off ≡ some (word128 p off)
be128_at-inside p off h = ground (arith, h)

Walks-read_ipv6_header : (packet : List ℕ) (r : Record) → Walks (read_ipv6_header packet r) r
unfolding read_ipv6_header
Walks-read_ipv6_header packet r = elim (Bool-cases (ltb (length packet) 40)) [
  | inl short ↦ rw (read_ipv6_header, short) (r, refl, refl)
  | inr whole ↦
      let filled : Record = record r {
        tos = byte_or packet 0 * 16 % 256 + byte_or packet 1 / 16;
        tos_reported = true;
        protocol = byte_or packet 6;
        src_addr = addr_from16 (word128 packet 8);
        dst_addr = addr_from16 (word128 packet 24);
      } in
      rw
        (
          read_ipv6_header,
          whole,
          u8_at-inside packet 0 (ground arith),
          u8_at-inside packet 1 (ground arith),
          u8_at-inside packet 6 (ground arith),
          be128_at-inside packet 8 (ground arith),
          be128_at-inside packet 24 (ground arith),
          slice_from-inside packet 40 (ground arith),
        )
        (Walks-read_transport (drop 40 packet) filled)
]

pub Walks-read_ip_packet : (packet : List ℕ) (r : Record) → Walks (read_ip_packet packet r) r
unfolding read_ip_packet
Walks-read_ip_packet packet r = elim (Bool-cases (nat_eqb (length packet) 0)) [
  | inl empty ↦ rw (empty) (r, refl, refl)
  | inr filled ↦
      let first = u8_at-inside packet 0 (ground arith) in
      elim (Bool-cases (nat_eqb (byte_or packet 0 / 16) 4)) [
        | inl ipv4 ↦ rw (filled, first, ipv4) (Walks-read_ipv4_header packet r)
        | inr not_ipv4 ↦ elim (Bool-cases (nat_eqb (byte_or packet 0 / 16) 6)) [
          | inl ipv6 ↦ rw (filled, first, not_ipv4, ipv6) (Walks-read_ipv6_header packet r)
          | inr neither ↦ rw (filled, first, not_ipv4, neither) (r, refl, refl)
        ]
      ]
]

Walks-read_network : (behind : Option (ℕ × List ℕ)) (r : Record) → Walks (read_network behind r) r
Walks-read_network none r = (r, refl, refl)
Walks-read_network (some (ether_type, payload)) r = elim (Bool-cases (nat_eqb ether_type 2048)) [
  | inl ipv4 ↦ rw (read_network, ipv4) (Walks-read_ipv4_header payload r)
  | inr not_ipv4 ↦ elim (Bool-cases (nat_eqb ether_type 34525)) [
    | inl ipv6 ↦ rw (read_network, not_ipv4, ipv6) (Walks-read_ipv6_header payload r)
    | inr neither ↦ rw (read_network, not_ipv4, neither) (r, refl, refl)
  ]
]

-- Whatever bytes a sampled frame holds, the walk ends without a panic, reports the Ethernet header
-- missing exactly where the frame is shorter than 14 bytes, and leaves every field of the record alone
-- that no packet header carries.
pub read_ethernet_frame_lem :
    (frame : List ℕ) (r : Record)
    → (r' : Record) × (read_ethernet_frame frame r ≡ some (leb 14 (length frame), r'))
      × (apart_from_header r' ≡ apart_from_header r)
unfolding read_ethernet_frame
read_ethernet_frame_lem frame r = elim (Bool-cases (leb 14 (length frame))) [
  | inr short ↦ rw (read_ethernet_frame, short, shorter short) (r, refl, refl)
  | inl whole ↦
      let behind = walk_tags (word16 frame 12) (drop 14 frame) in
      let (r', ends, rest) = Walks-read_network behind r in
      rw (read_ethernet_frame, whole, longer whole, ends) (r', refl, rest)
]
  where
    shorter : leb 14 (length frame) ≡ false → ltb (length frame) 14 ≡ true
    shorter h = ground arith

    longer : leb 14 (length frame) ≡ true → ltb (length frame) 14 ≡ false
    longer h = ground arith
