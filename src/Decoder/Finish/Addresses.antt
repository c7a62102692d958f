-- ===== src/Decoder/Finish/Addresses.antt =====
-- The address families of one record, internal/decoder/fields.go.
use xflow_exporter.Common.{◌≡◌, Bool, true, ◌&&◌, ◌||◌, ◌⊎◌, arith}
use xflow_exporter.Flow.{addr_is_valid, Record}
use xflow_exporter.Decoder.Fields.{FieldState, AddrPair}
use xflow_exporter.Decoder.Finish.{carries, resolve_addrs}

abbrev pub endpoints : Record → AddrPair
endpoints r = record { src = r.src_addr; dst = r.dst_addr }

abbrev pub is_whole : AddrPair → Bool
is_whole p = addr_is_valid p.src && addr_is_valid p.dst

-- A record whose template carries both families whole takes one of the two pairs as it was read,
-- never a source of one family and a destination of the other; and where either pair holds a reading,
-- the pair taken does.
pub resolve_addrs_whole :
    (r : Record) (s : FieldState)
    → is_whole s.ipv4 ≡ true
    → is_whole s.ipv6 ≡ true
    → let taken = endpoints (resolve_addrs r s) in
      ((taken ≡ s.ipv4) ⊎ (taken ≡ s.ipv6)) × (carries taken ≡ (carries s.ipv4 || carries s.ipv6))
unfolding resolve_addrs addr_is_valid carries
resolve_addrs_whole r s h4 h6 = (ground arith, ground arith)

-- No address is lost: a side of the record is present exactly where either family's element was read.
pub resolve_addrs_keeps :
    (r : Record) (s : FieldState)
    → let r' = resolve_addrs r s in
      (addr_is_valid r'.src_addr ≡ (addr_is_valid s.ipv4.src || addr_is_valid s.ipv6.src))
      × (addr_is_valid r'.dst_addr ≡ (addr_is_valid s.ipv4.dst || addr_is_valid s.ipv6.dst))
unfolding resolve_addrs addr_is_valid
resolve_addrs_keeps r s = (ground arith, ground arith)
