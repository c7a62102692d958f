-- ===== src/Decoder/Netflow8/Outcome.antt =====
-- What the parser of internal/decoder/netflow8.go answers on every payload.
use xflow_exporter.Common.{
  ℕ, zero, suc, ◌+◌, ◌*◌, ◌≤◌, ◌≡◌, refl, true, false, not, ◌||◌, Option, none, some, List, [], ◌∷◌,
  ◌++◌, lookup, nat_eq, length, append_nil, append_assoc, if◌then◌else◌, ltb, nat_eqb, Bool-cases,
  inl, inr, arith, drop, length-drop,
}
use xflow_exporter.Common.Bytes.{
  byte_or, word16, word32, u8_at-inside, be16_at-inside, be32_at-inside, slice_from-inside, ◌>>=◌,
  be16_at,
}
use xflow_exporter.Flow.{Addr, Record, zero_record, netflow_v8, Time, unix}
use xflow_exporter.Decoder.Reason.{Reason, Result, ok, err, malformed, unsupported_aggregation}
use xflow_exporter.Decoder.Clock.{ExportClock, anchor_pair}
use xflow_exporter.Decoder.Store.{Store}
use xflow_exporter.Decoder.AggregatedRecords.Layouts.{Layout, layout_of}
use xflow_exporter.Decoder.Netflow8.{
  Scheme, netflow_v8_schemes, anchor_v8_times, netflow_v8_records, netflow_v8_body,
  netflow_v8_counted, decode_netflow_v8, first_offset, opened_v8,
}
use xflow_exporter.Decoder.Netflow8.Schemes.{IsLaidOut, IsKnownAs, scheme-IsKnownAs}

-- The record that the bytes of a method's layout spell.
abbrev pub row : Addr → ℕ → Layout → List ℕ → ExportClock → Record
row exporter method l raw clock =
    let (start, end, shown) = anchor_pair clock (word32 raw l.first) (word32 raw (l.first + 4)) in
    record (l.fields raw
      (record zero_record { exporter = exporter; version = netflow_v8; odid = method })) {
        start = start;
        end = end;
      }

-- The records that lie one after another.
unfoldable pub rows : Addr → ℕ → Layout → List ℕ → ExportClock → ℕ → ℕ → List Record
rows exporter method l payload clock offset zero = []
rows exporter method l payload clock offset (suc n) =
    row exporter method l (drop offset payload) clock
    ∷ rows exporter method l payload clock (offset + l.size) n

-- The records that the header announces.
abbrev pub announced : Addr → List ℕ → Layout → List Record
announced exporter payload l =
    rows exporter (byte_or payload 22) l payload
      (record {
        at = unix (word32 payload 8) (word32 payload 12);
        uptime_ms = word32 payload 4;
        has_uptime = true;
      })
      28 (word16 payload 2)

-- What is answered where the method is of a layout, or of none.
abbrev pub answer_as : Addr → List ℕ → List Record → Option Layout → Result (List Record)
answer_as exporter payload dst none = err unsupported_aggregation
answer_as exporter payload dst (some l) =
    let count = word16 payload 2 in
    if ltb count 1 || ltb 2340 count || ltb (length payload) (28 + count * l.size)
    then err malformed
    else ok (dst ++ announced exporter payload l)

-- The answer to a datagram: a rejection where the header is cut short, the export version is another,
-- the method has no layout, or the records announced are none, too many or more than there are bytes
-- for; and else the records, behind those of before.
abbrev pub answer : Addr → List ℕ → List Record → Result (List Record)
answer exporter payload dst =
    if ltb (length payload) 28 || not (nat_eqb (byte_or payload 23) 2)
    then err malformed
    else answer_as exporter payload dst (layout_of (byte_or payload 22))

anchor_v8_times_lem :
    (raw : List ℕ) (r : Record) (clock : ExportClock) (method first : ℕ)
    → first_offset method ≡ first
    → first + 8 ≤ length raw
    → let (start, end, shown) = anchor_pair clock (word32 raw first) (word32 raw (first + 4)) in
      anchor_v8_times raw r clock method ≡ some (record r { start = start; end = end })
unfolding anchor_v8_times
anchor_v8_times_lem raw r clock method first same h =
    rw
      (
        same,
        be32_at-inside raw first (omega (arith, h)),
        be32_at-inside raw (first + 4) (omega (arith, h)),
      )
      refl

netflow_v8_records_lem :
    (exporter : Addr) (method : ℕ) (scheme : Scheme) (l : Layout) (payload : List ℕ)
    (clock : ExportClock) (offset n : ℕ) (dst : List Record)
    → IsLaidOut method scheme l
    → offset + n * l.size ≤ length payload
    → netflow_v8_records exporter method scheme payload clock offset n dst
      ≡ some (dst ++ rows exporter method l payload clock offset n)
unfolding netflow_v8_records rows
netflow_v8_records_lem exporter method scheme l payload clock offset zero dst laid h =
    rw (append_nil dst) refl
netflow_v8_records_lem exporter method scheme l payload clock offset (suc n) dst laid h =
    let raw = drop offset payload in
    let opened = opened_v8 exporter method in
    let long : l.size ≤ length raw = omega (arith, h, length-drop offset payload) in
    let one = row exporter method l raw clock in
    rw
      (
        netflow_v8_records,
        slice_from-inside payload offset (omega (arith, h)),
        laid.reads raw opened long,
        anchor_v8_times_lem raw (l.fields raw opened) clock method l.first laid.first
            (omega (arith, long, laid.instants)),
        laid.size,
        netflow_v8_records_lem exporter method scheme l payload clock (offset + l.size) n
            (dst ++ (one ∷ [])) laid (omega (arith, h)),
        append_assoc dst (one ∷ []) (rows exporter method l payload clock (offset + l.size) n),
      )
      refl

-- The parser ends with the answer, and a rejection leaves the store as it was.
abbrev Answers : Result (List Record) → Store → Option (Result (List Record) × Store) → Type 0
Answers result s step =
    (s' : Store) × (step ≡ some (result, s')) × ((reason : Reason) → result ≡ err reason → s' ≡ s)

body-Answers :
    (exporter : Addr) (port : ℕ) (payload : List ℕ) (scheme : Scheme) (l : Layout)
    (dst : List Record) (now : Time) (s : Store)
    → IsLaidOut (byte_or payload 22) scheme l
    → 28 + word16 payload 2 * l.size ≤ length payload
    → Answers (ok (dst ++ announced exporter payload l)) s (
        netflow_v8_body exporter port payload
          (byte_or payload 22)
          scheme
          (word16 payload 2)
          dst
          now
          s)
unfolding netflow_v8_body
body-Answers exporter port payload scheme l dst now s laid h =
    let clock : ExportClock = record {
      at = unix (word32 payload 8) (word32 payload 12);
      uptime_ms = word32 payload 4;
      has_uptime = true;
    } in
    rw
      (
        be32_at-inside payload 16 (omega (arith, h)),
        be16_at-inside payload 20 (omega (arith, h)),
        be32_at-inside payload 4 (omega (arith, h)),
        be32_at-inside payload 8 (omega (arith, h)),
        be32_at-inside payload 12 (omega (arith, h)),
        netflow_v8_records_lem exporter (byte_or payload 22) scheme l payload clock 28
            (word16 payload 2) dst laid h,
      )
      (_, refl, λ reason e. cc e)

counted-Answers :
    (exporter : Addr) (port : ℕ) (payload : List ℕ) (scheme : Scheme) (l : Layout)
    (dst : List Record) (now : Time) (s : Store)
    → IsLaidOut (byte_or payload 22) scheme l
    → Answers (answer_as exporter payload dst (some l)) s (
        netflow_v8_counted exporter port payload
          (byte_or payload 22)
          scheme
          (word16 payload 2)
          dst
          now
          s)
unfolding netflow_v8_counted
counted-Answers exporter port payload scheme l dst now s laid =
    let count = word16 payload 2 in
    elim (Bool-cases (ltb count 1 || ltb 2340 count)) [
      | inl outside ↦
          let bad : (ltb count 1 || ltb 2340 count || ltb (length payload) (28 + count * l.size))
              ≡ true =
            ground (arith, outside) in
          rw (bad, outside) (s, refl, λ reason e. refl)
      | inr inside ↦ elim (Bool-cases (ltb (length payload) (28 + count * l.size))) [
        | inl cut ↦
            let bad : (ltb count 1 || ltb 2340 count || ltb (length payload) (28 + count * l.size))
                ≡ true =
              ground (arith, cut) in
            let short : ltb (length payload) (28 + count * scheme.record_len) ≡ true =
              rw (laid.size) cut in
            rw (bad, inside, short) (s, refl, λ reason e. refl)
        | inr whole ↦
            let fine : (ltb count 1 || ltb 2340 count || ltb (length payload) (28 + count * l.size))
                ≡ false =
              ground (arith, inside, whole) in
            let long : ltb (length payload) (28 + count * scheme.record_len) ≡ false =
              rw (laid.size) whole in
            rw (fine, inside, long)
              (body-Answers exporter port payload scheme l dst now s laid (ground (arith, whole)))
      ]
    ]

method-Answers :
    (exporter : Addr) (port : ℕ) (payload : List ℕ) (dst : List Record) (now : Time) (s : Store)
    (found : Option Scheme) (known : Option Layout)
    → IsKnownAs (byte_or payload 22) found known
    → be16_at payload 2 ≡ some (word16 payload 2)
    → Answers (answer_as exporter payload dst known) s (elim found [
      | none ↦ some (err unsupported_aggregation, s)
      | some scheme ↦ be16_at payload 2 >>= λ count.
          netflow_v8_counted exporter port payload (byte_or payload 22) scheme count dst now s
    ])
method-Answers exporter port payload dst now s none none h held = (s, refl, λ reason e. refl)
method-Answers exporter port payload dst now s (some scheme) (some l) h held =
    rw (held) (counted-Answers exporter port payload scheme l dst now s h)
method-Answers exporter port payload dst now s none (some l) h held = elim h [ ]
method-Answers exporter port payload dst now s (some scheme) none h held = elim h [ ]

-- Every NetFlow v8 datagram is parsed to an end without a panic. It is rejected exactly where its
-- header is cut short, its export version is not 2, its method is none of the fourteen, or it
-- announces no records, more than 2340 or more than it holds, and then the store is as it was; and
-- else the records that its method's layout spells stand in order behind those of before.
pub decode_netflow_v8_lem :
    (exporter : Addr) (port : ℕ) (payload : List ℕ) (dst : List Record) (now : Time) (s : Store)
    → (s' : Store) × (decode_netflow_v8 exporter port payload dst now s
        ≡ some (answer exporter payload dst, s'))
      × ((reason : Reason) → answer exporter payload dst ≡ err reason → s' ≡ s)
unfolding decode_netflow_v8
decode_netflow_v8_lem exporter port payload dst now s =
    elim (Bool-cases (ltb (length payload) 28)) [
      | inl short ↦ rw (decode_netflow_v8, short) (s, refl, λ reason e. refl)
      | inr whole ↦
          let method = u8_at-inside payload 22 (ground arith) in
          let agg_version = u8_at-inside payload 23 (ground arith) in
          let count = be16_at-inside payload 2 (ground arith) in
          elim (Bool-cases (not (nat_eqb (byte_or payload 23) 2))) [
            | inl other ↦
                rw (decode_netflow_v8, whole, method, agg_version, other)
                  (s, refl, λ reason e. refl)
            | inr second ↦
                let of_method =
                  method-Answers exporter port payload dst now s
                    (lookup (byte_or payload 22) netflow_v8_schemes)
                    (layout_of (byte_or payload 22)) (scheme-IsKnownAs (byte_or payload 22))
                    count in
                rw (decode_netflow_v8, whole, method, agg_version, second) of_method
          ]
    ]
