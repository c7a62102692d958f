-- ===== src/Decoder/Sflow5/Total.antt =====
-- Whatever bytes an sFlow v5 datagram holds, internal/decoder/sflow5.go reads it to an end.
use xflow_exporter.Common.{
  ℕ, zero, suc, ◌≡◌, refl, some, List, Bool-cases, Option-cases, inl, inr, nat_eqb,
}
use xflow_exporter.Flow.{Addr, Record, Time, sflow_v5}
use xflow_exporter.Decoder.Reason.{Result, ok, err, malformed}
use xflow_exporter.Decoder.Domain.{DomainKey, domain_key_eq, sampler_key_eq}
use xflow_exporter.Decoder.Store.{domain}
use xflow_exporter.Decoder.State.{DecoderState, issue}
use xflow_exporter.Decoder.Soundness.{IsSoundStore}
use xflow_exporter.Decoder.Soundness.Storing.{IsGranted-domain}
use xflow_exporter.Decoder.Netflow9.Total.{IsSoundStore-track_packet}
use xflow_exporter.Decoder.Netflow9.{track_packet}
use xflow_exporter.Decoder.ByteReader.{ByteReader, new_byte_reader, read_word, skip_bytes}
use xflow_exporter.Decoder.FlowSamples.{read_body, word_or_zero}
use xflow_exporter.Decoder.Sflow5.{sflow_samples, sflow_body, decode_sflow_v5}
use xflow_exporter.Decoder.FlowSamples.Reading.{SoundEnds, decode_sflow_sample-SoundEnds}

sflow_samples-SoundEnds :
    (n : ℕ) (key : DomainKey) (r : ByteReader) (dst : List Record) (s : DecoderState)
    → IsSoundStore s.templates
    → SoundEnds (sflow_samples n key r dst s)
unfolding sflow_samples
sflow_samples-SoundEnds zero key r dst s sound = (ok dst, s, refl, sound)
sflow_samples-SoundEnds (suc n) key r dst s sound = elim (Option-cases (read_body r).0) [
  | inl cut ↦ rw (sflow_samples, cut) (err malformed, s, refl, sound)
  | inr ((sample_type, sample), held) ↦
      let (dst', s', ends, sound') =
        decode_sflow_sample-SoundEnds key sample_type sample dst s sound in
      rw (sflow_samples, held, ends) (sflow_samples-SoundEnds n key (read_body r).1 dst' s' sound')
]

sflow_body-SoundEnds :
    (exporter : Addr) (port : ℕ) (r : ByteReader) (dst : List Record) (at : Time) (s : DecoderState)
    → IsSoundStore s.templates
    → SoundEnds (sflow_body exporter port r dst at s)
unfolding sflow_body issue
sflow_body-SoundEnds exporter port r dst at s sound =
    let (sub_agent, r1) = word_or_zero r in
    let (sequence, r2) = word_or_zero r1 in
    let (samples, r3) = read_word (skip_bytes 4 r2) in
    let key : DomainKey = record { exporter = exporter; odid = sub_agent; proto = sflow_v5 } in
    let (store, granted) = domain key at s.templates in
    let (sound', present) = IsGranted-domain key at s.templates sound in
    elim (Option-cases samples) [
      | inl cut ↦ rw (sflow_body, cut) (err malformed, s, refl, sound)
      | inr (n, counted) ↦ elim (Bool-cases granted) [
        | inr refused ↦ rw (sflow_body, counted) (rw (refused) (ok dst, _, refl, sound'))
        | inl held ↦
            let (result, s', ends, sound'') =
              sflow_samples-SoundEnds n key r3 dst
                (record s { templates = track_packet key port sequence store })
                (IsSoundStore-track_packet key port sequence store sound') in
            rw (sflow_body, counted) (rw (held, ends) (_, s', refl, sound''))
      ]
    ]

-- Where every template that the store holds is sound, every sFlow v5 datagram, whatever its bytes, is
-- read to an end without a panic, and the store's templates are sound afterwards.
pub decode_sflow_v5_total :
    (exporter : Addr) (port : ℕ) (payload : List ℕ) (dst : List Record) (at : Time)
    (s : DecoderState)
    → IsSoundStore s.templates
    → (result : Result (List Record)) × (s' : DecoderState) × (decode_sflow_v5 exporter port payload
          dst at s
        ≡ some (result, s'))
      × IsSoundStore s'.templates
unfolding decode_sflow_v5
decode_sflow_v5_total exporter port payload dst at s sound =
    let (addr_type, r) = word_or_zero (skip_bytes 4 (new_byte_reader payload)) in
    elim (Bool-cases (nat_eqb addr_type 1)) [
      | inl ipv4 ↦
          rw (decode_sflow_v5, ipv4)
            (sflow_body-SoundEnds exporter port (skip_bytes 4 r) dst at s sound)
      | inr other ↦ elim (Bool-cases (nat_eqb addr_type 2)) [
        | inl ipv6 ↦
            rw (decode_sflow_v5, other, ipv6)
              (sflow_body-SoundEnds exporter port (skip_bytes 16 r) dst at s sound)
        | inr neither ↦ rw (decode_sflow_v5, other, neither) (err malformed, s, refl, sound)
      ]
    ]
