-- ===== src/Decoder/FlowSamples/Reading.antt =====
-- Whatever bytes a flow sample holds, internal/decoder/sflow5.go reads it to an end.
use xflow_exporter.Common.{
  ℕ, ◌-◌, ◌/◌, ◌%◌, ◌^◌, not, ◌≡◌, refl, Bool, true, false, Option, none, some, List, length, leb,
  Bool-cases, Option-cases, inl, inr, lookup, nat_eqb, ◌||◌,
}
use xflow_exporter.Flow.{Addr, Record}
use xflow_exporter.Decoder.Reason.{Result, ok, err}
use xflow_exporter.Decoder.Domain.{
  DomainKey, DomainState, SamplerState, domain_key_eq, sampler_key_eq,
}
use xflow_exporter.Decoder.Samplers.{
  track_sampler, held_sampler, measure_sample, make_room, accumulate, prune_idle_samplers, is_late,
  is_rebased, samplers_full,
}
use xflow_exporter.Decoder.Store.{Store}
use xflow_exporter.Decoder.State.{DecoderState, issue}
use xflow_exporter.Decoder.Packets.Walking.{read_ethernet_frame_lem, Walks-read_ip_packet}
use xflow_exporter.Decoder.Soundness.{IsSoundStore, IsSound-insert, IsSound-lookup}
use xflow_exporter.Decoder.ByteReader.{new_byte_reader, read_word, take_bytes, skip_bytes}
use xflow_exporter.Decoder.SampledPackets.{
  read_header, read_raw_header, header_protocol, raw_packet_header,
}
use xflow_exporter.Decoder.Fields.{or_zero}
use xflow_exporter.Decoder.FlowSamples.{
  SampleHead, Chosen, read_layer, read_chosen, append_sflow_record, opened_sample, track_sample,
  sample_records, decode_flow_sample, decode_sflow_sample, read_sample_head, choose_record,
  appended,
}

read_header_ends :
    (protocol frame_length : ℕ) (header : Option (List ℕ)) (r : Record)
    → (parsed : Option Record) × (read_header protocol frame_length header r ≡ some parsed)
unfolding read_header
read_header_ends protocol frame_length none r = (none, refl)
read_header_ends protocol frame_length (some header) r =
    let r₁ : Record = record r { bytes = frame_length } in
    elim (Bool-cases (nat_eqb protocol 1)) [
      | inl ethernet ↦
          let (r', ends, rest) = read_ethernet_frame_lem header r₁ in
          elim (Bool-cases (leb 14 (length header))) [
            | inl whole ↦ rw (ethernet, ends) (rw (whole) (some r', refl))
            | inr short ↦ rw (ethernet, ends) (rw (short) (none, refl))
          ]
      | inr other ↦
          let (r', ends, rest) = Walks-read_ip_packet header r₁ in rw (other, ends) (some r', refl)
    ]

read_raw_header_ends :
    (bytes : List ℕ) (r : Record)
    → (parsed : Option Record) × (read_raw_header bytes r ≡ some parsed)
unfolding read_raw_header
read_raw_header_ends bytes r =
    let (protocol, r1) = read_word (new_byte_reader bytes) in
    let (frame_length, r2) = read_word r1 in
    let (header_len, r3) = read_word (skip_bytes 4 r2) in
    elim (Option-cases header_len) [
      | inl cut ↦ rw (read_raw_header, cut) (none, refl)
      | inr (n, held) ↦
          rw (read_raw_header, held)
            (read_header_ends (or_zero protocol) (or_zero frame_length) (take_bytes n r3).0 r)
    ]

read_layer_ends :
    (protocol : Option ℕ) (bytes : List ℕ) (r : Record)
    → (parsed : Result Record) × (read_layer protocol bytes r ≡ some parsed)
unfolding read_layer
read_layer_ends none bytes r = (_, refl)
read_layer_ends (some protocol) bytes r =
    elim (Bool-cases (nat_eqb protocol 1 || nat_eqb protocol 11 || nat_eqb protocol 12)) [
      | inl walked ↦
          let (parsed, ends) = read_raw_header_ends bytes r in rw (walked, ends) (_, refl)
      | inr unwalked ↦ rw (unwalked) (_, refl)
    ]

read_chosen_ends :
    (kind : ℕ) (bytes : List ℕ) (r : Record)
    → (parsed : Result Record) × (read_chosen kind bytes r ≡ some parsed)
unfolding read_chosen
read_chosen_ends kind bytes r = elim (Bool-cases (nat_eqb kind raw_packet_header)) [
  | inl raw ↦ rw (read_chosen, raw) (read_layer_ends (header_protocol bytes) bytes r)
  | inr sampled ↦ elim (Bool-cases (nat_eqb kind 3)) [
    | inl ipv4 ↦ rw (read_chosen, sampled, ipv4) (_, refl)
    | inr ipv6 ↦ rw (read_chosen, sampled, ipv6) (_, refl)
  ]
]

-- The step ends, and the store's templates are sound still.
abbrev pub SoundEnds : {A : Type 0} → Option (A × DecoderState) → Type 0
SoundEnds {A} step =
    (a : A) × (s' : DecoderState) × (step ≡ some (a, s')) × IsSoundStore s'.templates

appended_templates :
    (exporter : Addr) (dst : List Record) (parsed : Result Record) (s : DecoderState)
    → (appended exporter dst parsed s).1.templates ≡ s.templates
unfolding issue
appended_templates exporter dst (ok r) s = refl
appended_templates exporter dst (err reason) s = refl

append_sflow_record-SoundEnds :
    (exporter : Addr) (head : SampleHead) (chosen : Chosen) (dst : List Record) (s : DecoderState)
    → IsSoundStore s.templates
    → SoundEnds (append_sflow_record exporter head chosen dst s)
unfolding append_sflow_record
append_sflow_record-SoundEnds exporter head none dst s sound = (dst, s, refl, sound)
append_sflow_record-SoundEnds exporter head (some (kind, bytes)) dst s sound =
    let (parsed, ends) = read_chosen_ends kind bytes (opened_sample exporter head) in
    rw (ends) (_, _, refl, rw (appended_templates exporter dst parsed s) sound)

measure_sample_templates :
    (d : DomainState) (id : ℕ) (last reading : SamplerState)
    → (measure_sample d id last reading).templates ≡ d.templates
unfolding measure_sample accumulate
measure_sample_templates d id last reading = elim (Bool-cases (is_late d last reading)) [
  | inl late ↦ rw (measure_sample, late) refl
  | inr timely ↦ elim (Bool-cases (is_rebased last reading)) [
    | inl rebased ↦ rw (measure_sample, timely, rebased) refl
    | inr measured ↦ rw (measure_sample, timely, measured) refl
  ]
]

make_room_templates :
    (d : DomainState) (at ttl : ℕ) → (make_room d at ttl).0.templates ≡ d.templates
unfolding make_room prune_idle_samplers
make_room_templates d at ttl = elim (Bool-cases (samplers_full d)) [
  | inr room ↦ rw (make_room, room) refl
  | inl full ↦ elim (Bool-cases (leb (at - d.samplers_oldest) ttl)) [
    | inl young ↦ rw (make_room, full, young) refl
    | inr stale ↦ rw (make_room, full, stale) refl
  ]
]

track_sampler_templates :
    (d : DomainState) (ttl refused id seq rate pool drops at : ℕ)
    → (track_sampler d ttl refused id seq rate pool drops at).0.templates ≡ d.templates
unfolding track_sampler
track_sampler_templates d ttl refused id seq rate pool drops at =
    elim (Option-cases (held_sampler d id)) [
      | inr (last, held) ↦ rw (track_sampler, held) (measure_sample_templates d id last _)
      | inl new ↦ elim (Bool-cases (make_room d at ttl).1) [
        | inl room ↦ rw (track_sampler, new, room) (make_room_templates d at ttl)
        | inr full ↦ rw (track_sampler, new, full) (make_room_templates d at ttl)
      ]
    ]

IsSoundStore-track_sample :
    (key : DomainKey) (head : SampleHead) (s : Store)
    → IsSoundStore s
    → IsSoundStore (track_sample key head s)
unfolding track_sample
IsSoundStore-track_sample key head s sound = elim (Option-cases (lookup key s.domains)) [
  | inl absent ↦ rw (track_sample, absent) sound
  | inr (d, held) ↦
      let (own, table) = IsSound-lookup key s d sound held in
      let (d', refused) =
        track_sampler d s.ttl s.samplers_refused head.source head.sequence head.sampling_rate
          head.pool head.drops d.last_seen in
      let same =
        track_sampler_templates d s.ttl s.samplers_refused head.source head.sequence
          head.sampling_rate head.pool head.drops d.last_seen in
      rw (track_sample, held)
        (IsSound-insert key d' s.domains s.sampler_tables sound (λ ref. rw (same) (own ref)) table)
]

decode_flow_sample-SoundEnds :
    (key : DomainKey) (sample : List ℕ) (expanded : Bool) (dst : List Record) (s : DecoderState)
    → IsSoundStore s.templates
    → SoundEnds (decode_flow_sample key sample expanded dst s)
unfolding decode_flow_sample sample_records issue
decode_flow_sample-SoundEnds key sample expanded dst s sound =
    let (head, r) = read_sample_head expanded (new_byte_reader sample) in
    let tracked : DecoderState = record s { templates = track_sample key head s.templates } in
    let sound' = IsSoundStore-track_sample key head s.templates sound in
    elim (Option-cases (read_word r).0) [
      | inl cut ↦ rw (decode_flow_sample, cut) (dst, _, refl, sound)
      | inr (n, counted) ↦ elim (Option-cases (choose_record n (read_word r).1 none)) [
        | inl broken ↦
            rw (decode_flow_sample, counted) (rw (sample_records, broken) (dst, _, refl, sound'))
        | inr (chosen, read) ↦
            rw (decode_flow_sample, counted)
              (rw (sample_records, read)
                (append_sflow_record-SoundEnds key.exporter head chosen dst tracked sound'))
      ]
    ]

pub decode_sflow_sample-SoundEnds :
    (key : DomainKey) (sample_type : ℕ) (sample : List ℕ) (dst : List Record) (s : DecoderState)
    → IsSoundStore s.templates
    → SoundEnds (decode_sflow_sample key sample_type sample dst s)
unfolding decode_sflow_sample
decode_sflow_sample-SoundEnds key sample_type sample dst s sound =
    elim (Bool-cases (not (nat_eqb (sample_type / 2 ^ 12) 0))) [
      | inl vendor ↦ rw (decode_sflow_sample, vendor) (dst, s, refl, sound)
      | inr standard ↦ elim (Bool-cases (nat_eqb (sample_type % 2 ^ 12) 1)) [
        | inl compact ↦
            rw (decode_sflow_sample, standard, compact)
              (decode_flow_sample-SoundEnds key sample false dst s sound)
        | inr other ↦ elim (Bool-cases (nat_eqb (sample_type % 2 ^ 12) 3)) [
          | inl expanded ↦
              rw (decode_sflow_sample, standard, other, expanded)
                (decode_flow_sample-SoundEnds key sample true dst s sound)
          | inr unread ↦ rw (decode_sflow_sample, standard, other, unread) (dst, s, refl, sound)
        ]
      ]
    ]
