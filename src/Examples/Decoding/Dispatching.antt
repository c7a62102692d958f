-- ===== src/Examples/Decoding/Dispatching.antt =====
-- The theorems on internal/decoder/decoder.go and sflow5.go at concrete datagrams.
use xflow_exporter.Common.{ℕ, ◌*◌, ◌^◌, ◌≡◌, ◌++◌, some, none, List, [], ◌∷◌, lookup, length}
use xflow_exporter.Common.Bytes.{◌>>=◌}
use xflow_exporter.Flow.{v4, unix, Record}
use xflow_exporter.Decoder.Reason.{Result}
use xflow_exporter.Decoder.State.{DecoderState, new_decoder}
use xflow_exporter.Decoder.Soundness.{IsSoundStore}
use xflow_exporter.Decoder.ByteReader.{new_byte_reader}
use xflow_exporter.Decoder.FlowSamples.{choose_record}
use xflow_exporter.Decoder.FlowSamples.Choosing.{bodies, preferred, choose_record_lem}
use xflow_exporter.Decoder.Sflow5.{decode_sflow_v5}
use xflow_exporter.Decoder.Sflow5.Stamping.{
  after_agent, announced_samples, sub_agent_id, Stamps, decode_sflow_v5_lem,
}
use xflow_exporter.Decoder.Dispatch.{Outcome}
use xflow_exporter.Decoder.Dispatch.Safety.{Datagram, decode_all, decode_all_total}

abbrev started : DecoderState
started = new_decoder 1000 (1800 * 10 ^ 9)

IsSoundStore-started : IsSoundStore started.templates
unfolding lookup
IsSoundStore-started key = tt

abbrev words : List ℕ → List ℕ
words [] = []
words (n ∷ rest) = 0 ∷ 0 ∷ 0 ∷ n ∷ words rest

-- The records of one sample: the packet's IPv4 fields, and the first four bytes of its header.
abbrev sampled_records : List ℕ
sampled_records =
    words (3 ∷ 32 ∷ 100 ∷ 6 ∷ 1 ∷ 2 ∷ 80 ∷ 99 ∷ 2 ∷ 0 ∷ [])
    ++ words (1 ∷ 20 ∷ 11 ∷ 64 ∷ 4 ∷ 4 ∷ 0 ∷ [])

-- An sFlow datagram of one compact flow sample with the first of them.
abbrev sflow_datagram : List ℕ
sflow_datagram = words (
    5 ∷ 1 ∷ 9 ∷ 0 ∷ 7 ∷ 0 ∷ 1 ∷ 1 ∷ 72 ∷ 1 ∷ 3 ∷ 10 ∷ 50 ∷ 0 ∷ 3 ∷ 4 ∷ 1 ∷ 3 ∷ 32 ∷ 100 ∷ 6 ∷ 1 ∷ 2
    ∷ 80 ∷ 99 ∷ 2 ∷ 0 ∷ [])

abbrev arrivals : List Datagram
arrivals =
    record { src = v4 7; port = 6343; payload = sflow_datagram; at = unix 100 0 }
    ∷ record { src = v4 7; port = 6343; payload = 0 ∷ 9 ∷ []; at = unix 101 0 }
    ∷ []

decode_all_total_example :
    (outcomes : List Outcome) × (s' : DecoderState) × (decode_all arrivals started
      ≡ some (outcomes, s'))
    × (length outcomes ≡ 2)
    × IsSoundStore s'.templates
decode_all_total_example = decode_all_total arrivals started IsSoundStore-started

choose_record_lem_example :
    choose_record 2 (new_byte_reader sampled_records) none
    ≡ (bodies 2 (new_byte_reader sampled_records) >>= λ records. some (preferred records))
choose_record_lem_example = choose_record_lem 2 (new_byte_reader sampled_records)

decode_sflow_v5_lem_example :
    let r = after_agent sflow_datagram in
    (result : Result (List Record)) × (s' : DecoderState) × (decode_sflow_v5
        (v4 7)
        6343
        sflow_datagram
        []
        (unix 100 0)
        started
      ≡ some (result, s'))
    × Stamps [] (announced_samples r) (sub_agent_id r) result
decode_sflow_v5_lem_example =
    decode_sflow_v5_lem (v4 7) 6343 sflow_datagram [] (unix 100 0) started IsSoundStore-started
