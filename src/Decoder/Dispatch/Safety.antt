-- ===== src/Decoder/Dispatch/Safety.antt =====
-- Whatever datagrams arrive, internal/decoder/decoder.go decodes them all.
use xflow_exporter.Common.{
  ℕ, ◌≡◌, refl, Option, some, List, [], ◌∷◌, length, Option-cases, inl, inr,
}
use xflow_exporter.Common.Bytes.{◌>>=◌}
use xflow_exporter.Flow.{
  Addr, Record, Time, Version, version_unknown, netflow_v5, netflow_v8, netflow_v9, ipfix, sflow_v5,
}
use xflow_exporter.Decoder.Reason.{Result, ok, err, unsupported_version}
use xflow_exporter.Decoder.Sniff.{sniff_version, sniff_version_lem}
use xflow_exporter.Decoder.Stats.{exporter}
use xflow_exporter.Decoder.Store.{Store}
use xflow_exporter.Decoder.State.{DecoderState, issue}
use xflow_exporter.Decoder.Netflow9.Total.{decode_netflow_v9_total}
use xflow_exporter.Decoder.Ipfix.Total.{decode_ipfix_total}
use xflow_exporter.Decoder.Sflow5.Total.{decode_sflow_v5_total}
use xflow_exporter.Decoder.Soundness.{IsSoundStore}
use xflow_exporter.Decoder.FlowSamples.Reading.{SoundEnds}
use xflow_exporter.Decoder.Dispatch.{
  on_templates, decode_version, Outcome, accounted, decode_sniffed, decode,
}
use xflow_exporter.Decoder.Dispatch.Fixed.{
  SoundParse, decode_netflow_v5-SoundParse, decode_netflow_v8-SoundParse,
}

on_templates-SoundEnds :
    (s : DecoderState) (parsed : Option (Result (List Record) × Store))
    → SoundParse parsed
    → SoundEnds (on_templates s parsed)
on_templates-SoundEnds s parsed (result, store, ends, sound) = rw (ends) (result, _, refl, sound)

decode_version-SoundEnds :
    (version : Version) (src : Addr) (port : ℕ) (payload : List ℕ) (dst : List Record) (at : Time)
    (s : DecoderState)
    → IsSoundStore s.templates
    → SoundEnds (decode_version version src port payload dst at s)
unfolding decode_version
decode_version-SoundEnds netflow_v5 src port payload dst at s sound =
    on_templates-SoundEnds s _
      (decode_netflow_v5-SoundParse src port payload dst at s.templates sound)
decode_version-SoundEnds netflow_v8 src port payload dst at s sound =
    on_templates-SoundEnds s _
      (decode_netflow_v8-SoundParse src port payload dst at s.templates sound)
decode_version-SoundEnds netflow_v9 src port payload dst at s sound =
    decode_netflow_v9_total src port payload dst at s sound
decode_version-SoundEnds ipfix src port payload dst at s sound =
    decode_ipfix_total src port payload dst at s sound
decode_version-SoundEnds sflow_v5 src port payload dst at s sound =
    decode_sflow_v5_total src port payload dst at s sound
decode_version-SoundEnds version_unknown src port payload dst at s sound =
    (err unsupported_version, s, refl, sound)

accounted_templates :
    (version : Version) (src : Addr) (dst : List Record) (at : Time)
    (p : Result (List Record) × DecoderState)
    → (accounted version src dst at p).1.templates ≡ p.1.templates
unfolding issue
accounted_templates version src dst at (ok records, s) = refl
accounted_templates version src dst at (err reason, s) = refl

decode_sniffed-SoundEnds :
    (sniffed : Result Version) (src : Addr) (port : ℕ) (payload : List ℕ) (dst : List Record)
    (at : Time) (s : DecoderState)
    → IsSoundStore s.templates
    → SoundEnds (decode_sniffed sniffed src port payload dst at s)
unfolding decode_sniffed issue
decode_sniffed-SoundEnds (err reason) src port payload dst at s sound = (_, _, refl, sound)
decode_sniffed-SoundEnds (ok version) src port payload dst at s sound =
    let (result, s', ends, sound') =
      decode_version-SoundEnds version src port payload dst at s sound in
    rw (ends) (_, _, refl, rw (accounted_templates version src dst at (result, s')) sound')

decode-SoundEnds :
    (src : Addr) (port : ℕ) (payload : List ℕ) (dst : List Record) (at : Time) (s : DecoderState)
    → IsSoundStore s.templates
    → SoundEnds (decode src port payload dst at s)
unfolding decode
decode-SoundEnds src port payload dst at s sound = elim (Option-cases (sniff_version payload)) [
  | inl panics ↦ absurd ((sniff_version_lem payload).0 panics)
  | inr (sniffed, begins) ↦
      rw (decode, begins)
        (decode_sniffed-SoundEnds sniffed src port payload dst at
          (record s { stats = (exporter src at s.stats).0 }) sound)
]

pub record Datagram : Type 0 where
  pub src : Addr
  pub port : ℕ
  pub payload : List ℕ
  pub at : Time

-- The datagrams decoded one after another, each into an empty slice: their outcomes and the decoder
-- after them.
unfoldable pub decode_all : List Datagram → DecoderState → Option (List Outcome × DecoderState)
decode_all [] s = some ([], s)
decode_all (g ∷ rest) s = decode g.src g.port g.payload [] g.at s >>= λ p.
    decode_all rest p.1 >>= λ q. some (p.0 ∷ q.0, q.1)

-- Where every template that the store holds is sound, any run of datagrams of any devices, whatever
-- bytes they hold, is decoded to its end without a panic, with one outcome for each, and the store's
-- templates are sound afterwards.
pub decode_all_total :
    (datagrams : List Datagram) (s : DecoderState)
    → IsSoundStore s.templates
    → (outcomes : List Outcome) × (s' : DecoderState) × (decode_all datagrams s
        ≡ some (outcomes, s'))
      × (length outcomes ≡ length datagrams)
      × IsSoundStore s'.templates
unfolding decode_all
decode_all_total [] s sound = ([], s, refl, refl, sound)
decode_all_total (g ∷ rest) s sound =
    let (outcome, s1, ends, sound1) = decode-SoundEnds g.src g.port g.payload [] g.at s sound in
    let (outcomes, s2, end, same, sound2) = decode_all_total rest s1 sound1 in
    rw (ends) (rw (end) (outcome ∷ outcomes, s2, refl, cc same, sound2))
