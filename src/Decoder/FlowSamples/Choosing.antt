-- ===== src/Decoder/FlowSamples/Choosing.antt =====
-- The flow record that describes the packet of a sample, of those that internal/decoder/sflow5.go reads.
use xflow_exporter.Common.{
  ℕ, zero, suc, ◌≡◌, refl, Option, none, some, List, [], ◌∷◌, nat_eqb, if◌then◌else◌, Bool-cases,
  Option-cases, inl, inr,
}
use xflow_exporter.Common.Bytes.{◌>>=◌}
use xflow_exporter.Decoder.ByteReader.{ByteReader}
use xflow_exporter.Decoder.SampledPackets.{raw_packet_header, packet_record_kind}
use xflow_exporter.Decoder.FlowSamples.{Chosen, choose, read_body, choose_record}

-- The records that lie one after another, types with bodies; `none` where one does not fit.
unfoldable pub bodies : ℕ → ByteReader → Option (List (ℕ × List ℕ))
bodies zero r = some []
bodies (suc n) r =
    let (body, r') = read_body r in
    elim body [ none ↦ none | some b ↦ bodies n r' >>= λ rest. some (b ∷ rest) ]

-- The kinds of those that describe the packet.
unfoldable pub described : List (ℕ × List ℕ) → List (ℕ × List ℕ)
described [] = []
described ((record_type, bytes) ∷ rest) = elim (packet_record_kind record_type) [
  | none ↦ described rest
  | some kind ↦ (kind, bytes) ∷ described rest
]

unfoldable pub first_raw : List (ℕ × List ℕ) → Chosen
first_raw [] = none
first_raw ((kind, bytes) ∷ rest) =
    if nat_eqb kind raw_packet_header then some (kind, bytes) else first_raw rest

unfoldable pub first_of : List (ℕ × List ℕ) → Chosen
first_of [] = none
first_of (one ∷ rest) = some one

abbrev pub or_else : Chosen → Chosen → Chosen
or_else none other = other
or_else (some one) other = some one

-- The first raw header, or else the first record that describes the packet.
abbrev pub preferred : List (ℕ × List ℕ) → Chosen
preferred records = or_else (first_raw (described records)) (first_of (described records))

-- The same of those that describe the packet, behind a choice that is made already.
abbrev preferred_after : Chosen → List (ℕ × List ℕ) → Chosen
preferred_after none records = or_else (first_raw records) (first_of records)
preferred_after (some (kind, bytes)) records =
    if nat_eqb kind raw_packet_header
    then some (kind, bytes)
    else or_else (first_raw records) (some (kind, bytes))

preferred_after_none : (chosen : Chosen) → preferred_after chosen [] ≡ chosen
unfolding first_raw first_of
preferred_after_none none = refl
preferred_after_none (some (kind, bytes)) = elim (Bool-cases (nat_eqb kind raw_packet_header)) [
  | inl raw ↦ rw raw refl
  | inr parsed ↦ rw parsed refl
]

preferred_after-choose :
    (chosen : Chosen) (kind : ℕ) (bytes : List ℕ) (rest : List (ℕ × List ℕ))
    → preferred_after (choose (some kind) bytes chosen) rest
      ≡ preferred_after chosen ((kind, bytes) ∷ rest)
unfolding choose first_raw first_of
preferred_after-choose none kind bytes rest = elim (Bool-cases (nat_eqb kind raw_packet_header)) [
  | inl raw ↦ rw (raw) refl
  | inr parsed ↦ rw (parsed) refl
]
preferred_after-choose (some (kind', bytes')) kind bytes rest =
    elim (Bool-cases (nat_eqb kind raw_packet_header)) [
      | inl raw ↦ elim (Bool-cases (nat_eqb kind' raw_packet_header)) [
        | inl raw' ↦ rw (raw, raw') (rw (raw') refl)
        | inr parsed' ↦ rw (raw, parsed') (rw (raw) refl)
      ]
      | inr parsed ↦ elim (Bool-cases (nat_eqb kind' raw_packet_header)) [
        | inl raw' ↦ rw (parsed, raw') refl
        | inr parsed' ↦ rw (parsed, parsed') refl
      ]
    ]

preferred_after-described :
    (chosen : Chosen) (record_type : ℕ) (bytes : List ℕ) (rest : List (ℕ × List ℕ))
    → preferred_after (choose (packet_record_kind record_type) bytes chosen) (described rest)
      ≡ preferred_after chosen (described ((record_type, bytes) ∷ rest))
unfolding described
preferred_after-described chosen record_type bytes rest =
    elim (Option-cases (packet_record_kind record_type)) [
      | inl annotates ↦ unfold choose in rw (described, annotates) refl
      | inr (kind, describes) ↦
          rw (described, describes) (preferred_after-choose chosen kind bytes (described rest))
    ]

choose_record_after :
    (n : ℕ) (r : ByteReader) (chosen : Chosen)
    → choose_record n r chosen
      ≡ (bodies n r >>= λ records. some (preferred_after chosen (described records)))
unfolding choose_record bodies
choose_record_after zero r chosen = unfold described in rw (preferred_after_none chosen) refl
choose_record_after (suc n) r chosen = elim (Option-cases (read_body r).0) [
  | inl cut ↦ rw (choose_record, bodies, cut) refl
  | inr ((record_type, bytes), held) ↦
      let next = choose (packet_record_kind record_type) bytes chosen in
      rw (choose_record, bodies, held, choose_record_after n (read_body r).1 next)
        (behind (bodies n (read_body r).1) record_type bytes)
]
  where
    behind :
        (read : Option (List (ℕ × List ℕ))) (record_type : ℕ) (bytes : List ℕ)
        → (read >>= λ records. some (
            preferred_after
              (choose (packet_record_kind record_type) bytes chosen)
              (described records)))
          ≡ ((read >>= λ records. some ((record_type, bytes) ∷ records)) >>= λ records.
              some (preferred_after chosen (described records)))
    behind none record_type bytes = refl
    behind (some records) record_type bytes =
        cc (preferred_after-described chosen record_type bytes records)

-- A sample's packet is read from the first raw header among its records, and only where there is
-- none from the first record that describes the packet otherwise; and no record is chosen where one
-- of them, however late, does not fit the sample.
pub choose_record_lem :
    (n : ℕ) (r : ByteReader)
    → choose_record n r none ≡ (bodies n r >>= λ records. some (preferred records))
choose_record_lem n r = choose_record_after n r none
