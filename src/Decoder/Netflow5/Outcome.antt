-- ===== src/Decoder/Netflow5/Outcome.antt =====
-- What the parser of internal/decoder/netflow5.go answers on every payload.
use xflow_exporter.Common.{
  ℕ, zero, suc, ◌+◌, ◌*◌, ◌≤◌, ◌≡◌, refl, ◌∙◌, Bool, true, false, not, ◌||◌, ◌&&◌, some, List, [],
  ◌∷◌, ◌++◌, if◌then◌else◌, Bool-cases, inl, inr, ltb, leb, leb→le, length, drop, length-drop,
  append_nil, append_assoc, arith,
}
use xflow_exporter.Common.Bytes.{
  byte_or, word16, word32, u8_at-inside, be16_at-inside, be32_at-inside, slice_from-inside,
}
use xflow_exporter.Flow.{Addr, v4, Record, zero_record, netflow_v5, Time, unix}
use xflow_exporter.Decoder.Reason.{ok, err, malformed}
use xflow_exporter.Decoder.Clock.{ExportClock, anchor_pair}
use xflow_exporter.Decoder.Store.{Store, domain}
use xflow_exporter.Decoder.Accounting.{Link, link, write_back, count_clock_pair}
use xflow_exporter.Decoder.Netflow5.{
  netflow_v5_sampling, rate_for, netflow_v5_record, netflow_v5_records, tracked, netflow_v5_key,
  netflow_v5_body, decode_netflow_v5,
}

-- The record that 48 bytes spell, and the domain after it.
abbrev pub row : Addr → List ℕ → ExportClock → ℕ → Link → Record × Link
row exporter r clock header_rate here =
    let (start, end, shown) = anchor_pair clock (word32 r 24) (word32 r 28) in
    let (here', rate) = rate_for (count_clock_pair (not shown) here) header_rate (word16 r 46) in
    (
      record zero_record {
        exporter = exporter;
        version = netflow_v5;
        src_addr = v4 (word32 r 0);
        dst_addr = v4 (word32 r 4);
        src_port = word16 r 32;
        dst_port = word16 r 34;
        protocol = byte_or r 38;
        tos = byte_or r 39;
        tos_reported = true;
        tcp_flags = byte_or r 37;
        tcp_flags_reported = true;
        input_if = word16 r 12;
        output_if = word16 r 14;
        packets = word32 r 16;
        bytes = word32 r 20;
        bytes_reported = true;
        packets_reported = true;
        flows = 1;
        src_as = word16 r 40;
        dst_as = word16 r 42;
        src_mask = byte_or r 44;
        dst_mask = byte_or r 45;
        start = start;
        end = end;
        sampling_rate = rate;
      },
      here',
    )

-- The records that lie one after another, and the domain after them.
unfoldable pub rows : Addr → List ℕ → ExportClock → ℕ → ℕ → ℕ → Link → List Record × Link
rows exporter payload clock rate offset zero here = ([], here)
rows exporter payload clock rate offset (suc n) here =
    let (first, here') = row exporter (drop offset payload) clock rate here in
    let (others, here'') = rows exporter payload clock rate (offset + 48) n here' in
    (first ∷ others, here'')

netflow_v5_record_lem :
    (exporter : Addr) (r : List ℕ) (clock : ExportClock) (rate : ℕ) (here : Link)
    → 48 ≤ length r
    → netflow_v5_record exporter r clock rate here ≡ some (row exporter r clock rate here)
unfolding netflow_v5_record
netflow_v5_record_lem exporter r clock rate here h =
    rw
      (
        be32_at-inside r 24 (omega (arith, h)),
        be32_at-inside r 28 (omega (arith, h)),
        be16_at-inside r 46 (omega (arith, h)),
        be32_at-inside r 0 (omega (arith, h)),
        be32_at-inside r 4 (omega (arith, h)),
        be16_at-inside r 32 (omega (arith, h)),
        be16_at-inside r 34 (omega (arith, h)),
        u8_at-inside r 38 (omega (arith, h)),
        u8_at-inside r 39 (omega (arith, h)),
        u8_at-inside r 37 (omega (arith, h)),
        be16_at-inside r 12 (omega (arith, h)),
        be16_at-inside r 14 (omega (arith, h)),
        be32_at-inside r 16 (omega (arith, h)),
        be32_at-inside r 20 (omega (arith, h)),
        be16_at-inside r 40 (omega (arith, h)),
        be16_at-inside r 42 (omega (arith, h)),
        u8_at-inside r 44 (omega (arith, h)),
        u8_at-inside r 45 (omega (arith, h)),
      )
      refl

netflow_v5_records_lem :
    (exporter : Addr) (payload : List ℕ) (clock : ExportClock) (rate offset n : ℕ)
    (dst : List Record) (here : Link)
    → offset + n * 48 ≤ length payload
    → netflow_v5_records exporter payload clock rate offset n dst here
      ≡ some (
        dst ++ (rows exporter payload clock rate offset n here).0,
        (rows exporter payload clock rate offset n here).1,
      )
unfolding netflow_v5_records rows
netflow_v5_records_lem exporter payload clock rate offset zero dst here h = rw (append_nil dst) refl
netflow_v5_records_lem exporter payload clock rate offset (suc n) dst here h =
    let r = drop offset payload in
    let p = row exporter r clock rate here in
    rw
      (
        slice_from-inside payload offset (omega (arith, h)),
        netflow_v5_record_lem exporter r clock rate here
            (omega (arith, h, length-drop offset payload)),
      )
      (netflow_v5_records_lem exporter payload clock rate (offset + 48) n (dst ++ (p.0 ∷ [])) p.1
          (omega (arith, h))
        ∙ rw (append_assoc dst (p.0 ∷ []) (rows exporter payload clock rate (offset + 48) n p.1).0)
            refl)

-- The records that the header announces, over the domain that the header tracked.
abbrev pub announced : Addr → ℕ → List ℕ → Link → List Record × Link
announced exporter port payload here =
    rows exporter payload
      (record {
        at = unix (word32 payload 8) (word32 payload 12);
        uptime_ms = word32 payload 4;
        has_uptime = true;
      })
      (netflow_v5_sampling (word16 payload 22)) 24 (word16 payload 2)
      (tracked here port (word32 payload 16) (word16 payload 2) (word16 payload 20))

-- The header is whole, announces 1 to 30 records, and the datagram holds them.
abbrev pub is_well_formed : List ℕ → Bool
is_well_formed payload =
    leb 24 (length payload)
    && leb 1 (word16 payload 2)
    && leb (word16 payload 2) 30
    && leb (24 + word16 payload 2 * 48) (length payload)

netflow_v5_body_lem :
    (exporter : Addr) (port : ℕ) (payload : List ℕ) (dst : List Record) (now : Time) (s : Store)
    → 24 + word16 payload 2 * 48 ≤ length payload
    → let s' = (domain (netflow_v5_key exporter) now s).0 in
      let (records, here) = announced exporter port payload (link (netflow_v5_key exporter) s') in
      netflow_v5_body exporter port payload (word16 payload 2) dst now s
      ≡ some (ok (dst ++ records), write_back (netflow_v5_key exporter) here s')
unfolding netflow_v5_body
netflow_v5_body_lem exporter port payload dst now s h =
    rw
      (
        be32_at-inside payload 16 (omega (arith, h)),
        be16_at-inside payload 20 (omega (arith, h)),
        be32_at-inside payload 4 (omega (arith, h)),
        be32_at-inside payload 8 (omega (arith, h)),
        be32_at-inside payload 12 (omega (arith, h)),
        be16_at-inside payload 22 (omega (arith, h)),
        netflow_v5_records_lem exporter payload _ _ 24 (word16 payload 2) dst _ h,
      )
      refl

-- The parser never panics. A datagram whose header is whole, announces 1 to 30 records and is
-- followed by them yields exactly those records after the ones it was given, whatever bytes trail
-- them; any other is malformed and leaves the store as it was.
pub decode_netflow_v5_lem :
    (exporter : Addr) (port : ℕ) (payload : List ℕ) (dst : List Record) (now : Time) (s : Store)
    → let s' = (domain (netflow_v5_key exporter) now s).0 in
      let (records, here) = announced exporter port payload (link (netflow_v5_key exporter) s') in
      decode_netflow_v5 exporter port payload dst now s ≡ (
        if is_well_formed payload
        then some (ok (dst ++ records), write_back (netflow_v5_key exporter) here s')
        else some (err malformed, s))
unfolding decode_netflow_v5
decode_netflow_v5_lem exporter port payload dst now s =
    elim (Bool-cases (leb 24 (length payload))) [
      | inr short ↦ rw (short, short_header short) refl
      | inl whole ↦ elim (Bool-cases (leb 1 (word16 payload 2) && leb (word16 payload 2) 30)) [
        | inr odd ↦
            rw
              (
                whole_header whole,
                be16_at-inside payload 2 (ground arith),
                bad_count odd,
                ill whole odd,
              )
              refl
        | inl fine ↦ elim (Bool-cases (leb (24 + word16 payload 2 * 48) (length payload))) [
          | inr cut ↦
              rw
                (
                  whole_header whole,
                  be16_at-inside payload 2 (ground arith),
                  good_count fine,
                  cut_short cut,
                  cut_ill cut,
                )
                refl
          | inl fits ↦
              rw
                (
                  whole_header whole,
                  be16_at-inside payload 2 (ground arith),
                  good_count fine,
                  all_there fits,
                  well whole fine fits,
                )
                (netflow_v5_body_lem exporter port payload dst now s (leb→le _ _ fits))
        ]
      ]
    ]
  where
    short_header : leb 24 (length payload) ≡ false → ltb (length payload) 24 ≡ true
    short_header h = ground arith

    whole_header : leb 24 (length payload) ≡ true → ltb (length payload) 24 ≡ false
    whole_header h = ground arith

    bad_count :
        (leb 1 (word16 payload 2) && leb (word16 payload 2) 30) ≡ false
        → (ltb (word16 payload 2) 1 || ltb 30 (word16 payload 2)) ≡ true
    bad_count h = ground arith

    good_count :
        (leb 1 (word16 payload 2) && leb (word16 payload 2) 30) ≡ true
        → (ltb (word16 payload 2) 1 || ltb 30 (word16 payload 2)) ≡ false
    good_count h = ground arith

    ill :
        leb 24 (length payload) ≡ true
        → (leb 1 (word16 payload 2) && leb (word16 payload 2) 30) ≡ false
        → is_well_formed payload ≡ false
    ill w h = ground arith

    cut_short :
        leb (24 + word16 payload 2 * 48) (length payload) ≡ false
        → ltb (length payload) (24 + word16 payload 2 * 48) ≡ true
    cut_short h = ground arith

    cut_ill :
        leb (24 + word16 payload 2 * 48) (length payload) ≡ false → is_well_formed payload ≡ false
    cut_ill h = ground arith

    all_there :
        leb (24 + word16 payload 2 * 48) (length payload) ≡ true
        → ltb (length payload) (24 + word16 payload 2 * 48) ≡ false
    all_there h = ground arith

    well :
        leb 24 (length payload) ≡ true
        → (leb 1 (word16 payload 2) && leb (word16 payload 2) 30) ≡ true
        → leb (24 + word16 payload 2 * 48) (length payload) ≡ true
        → is_well_formed payload ≡ true
    well w c f = ground arith
