-- ===== src/Examples/Decoding/Frames.antt =====
-- The theorem on the packet headers of internal/decoder/l2l3.go at a concrete frame.
use xflow_exporter.Common.{ℕ, ◌≡◌, List, [], ◌∷◌, some, length, leb}
use xflow_exporter.Flow.{Record, zero_record}
use xflow_exporter.Decoder.Packets.{read_ethernet_frame}
use xflow_exporter.Decoder.Packets.Walking.{apart_from_header, read_ethernet_frame_lem}

-- A VLAN-tagged frame with the IPv4 header of a UDP packet and its ports.
abbrev tagged_frame : List ℕ
tagged_frame =
    1 ∷ 2 ∷ 3 ∷ 4 ∷ 5 ∷ 6 ∷ 1 ∷ 2 ∷ 3 ∷ 4 ∷ 5 ∷ 7 ∷ 129 ∷ 0 ∷ 0 ∷ 100 ∷ 8 ∷ 0 ∷ 69 ∷ 0 ∷ 0 ∷ 32 ∷ 0
    ∷ 0 ∷ 0 ∷ 0 ∷ 64 ∷ 17 ∷ 0 ∷ 0 ∷ 10 ∷ 0 ∷ 0 ∷ 1 ∷ 10 ∷ 0 ∷ 0 ∷ 2 ∷ 0 ∷ 53 ∷ 200 ∷ 1 ∷ []

read_ethernet_frame_lem_example :
    (r' : Record) × (read_ethernet_frame tagged_frame zero_record
      ≡ some (leb 14 (length tagged_frame), r'))
    × (apart_from_header r' ≡ apart_from_header zero_record)
read_ethernet_frame_lem_example = read_ethernet_frame_lem tagged_frame zero_record
