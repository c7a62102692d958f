-- ===== src/Decoder/Sflow5/Stamping.antt =====
-- What an sFlow v5 datagram appends, internal/decoder/sflow5.go.
use xflow_exporter.Common.{
  ℕ, zero, suc, ◌≤◌, ◌≡◌, refl, sym, ◌/◌, ◌%◌, ◌^◌, not, Bool, true, false, Option, none, some,
  List, [], ◌∷◌, ◌++◌, map, All, length, length-append, append_nil, append_assoc, take-append,
  drop-append, if◌then◌else◌, nat_eqb, Option-cases, Bool-cases, inl, inr, arith,
}
use xflow_exporter.Common.Bytes.{◌>>=◌}
use xflow_exporter.Flow.{Addr, Record, Time, sflow_v5}
use xflow_exporter.Decoder.Reason.{Result, ok, err}
use xflow_exporter.Decoder.Domain.{DomainKey}
use xflow_exporter.Decoder.Store.{domain}
use xflow_exporter.Decoder.State.{DecoderState}
use xflow_exporter.Decoder.ByteReader.{ByteReader, new_byte_reader, read_word, skip_bytes}
use xflow_exporter.Decoder.FlowSamples.{
  SampleHead, Chosen, word_or_zero, read_chosen, opened_sample, appended, append_sflow_record,
  choose_record, sample_records, read_sample_head, decode_flow_sample, decode_sflow_sample,
  read_body,
}
use xflow_exporter.Decoder.Netflow9.{track_packet}
use xflow_exporter.Decoder.Sflow5.{
  with_odid, stamped_from, sflow_samples, sflow_body, decode_sflow_v5,
}
use xflow_exporter.Decoder.Sflow5.Total.{decode_sflow_v5_total}
use xflow_exporter.Decoder.Soundness.{IsSoundStore}

-- So many records at most stand behind those of before.
abbrev pub Extends : List Record → ℕ → List Record → Type 0
Extends dst n records = (new : List Record) × (records ≡ dst ++ new) × (length new ≤ n)

abbrev Adds : List Record → ℕ → Option (List Record × DecoderState) → Type 0
Adds dst n none = Unit {0}
Adds dst n (some (records, s)) = Extends dst n records

abbrev Grows : List Record → ℕ → Result (List Record) → Type 0
Grows dst n (err reason) = Unit {0}
Grows dst n (ok records) = Extends dst n records

abbrev GrowsBy : List Record → ℕ → Option (Result (List Record) × DecoderState) → Type 0
GrowsBy dst n none = Unit {0}
GrowsBy dst n (some (result, s)) = Grows dst n result

Extends-none : (dst : List Record) (n : ℕ) → Extends dst n dst
Extends-none dst n = ([], sym (append_nil dst), omega arith)

Adds-appended :
    (exporter : Addr) (dst : List Record) (s : DecoderState) (parsed : Option (Result Record))
    → Adds dst 1 (parsed >>= λ p. some (appended exporter dst p s))
Adds-appended exporter dst s none = tt
Adds-appended exporter dst s (some (ok r)) = (r ∷ [], refl, omega arith)
Adds-appended exporter dst s (some (err reason)) = Extends-none dst 1

Adds-append_sflow_record :
    (exporter : Addr) (head : SampleHead) (chosen : Chosen) (dst : List Record) (s : DecoderState)
    → Adds dst 1 (append_sflow_record exporter head chosen dst s)
unfolding append_sflow_record
Adds-append_sflow_record exporter head none dst s = Extends-none dst 1
Adds-append_sflow_record exporter head (some (kind, bytes)) dst s =
    Adds-appended exporter dst s (read_chosen kind bytes (opened_sample exporter head))

Adds-decode_flow_sample :
    (key : DomainKey) (sample : List ℕ) (expanded : Bool) (dst : List Record) (s : DecoderState)
    → Adds dst 1 (decode_flow_sample key sample expanded dst s)
unfolding decode_flow_sample sample_records
Adds-decode_flow_sample key sample expanded dst s =
    let (head, r) = read_sample_head expanded (new_byte_reader sample) in
    elim (Option-cases (read_word r).0) [
      | inl cut ↦ rw (decode_flow_sample, cut) (Extends-none dst 1)
      | inr (n, counted) ↦ elim (Option-cases (choose_record n (read_word r).1 none)) [
        | inl broken ↦
            rw (decode_flow_sample, counted) (rw (sample_records, broken) (Extends-none dst 1))
        | inr (chosen, read) ↦
            rw (decode_flow_sample, counted)
              (rw (sample_records, read) (Adds-append_sflow_record key.exporter head chosen dst _))
      ]
    ]

Adds-decode_sflow_sample :
    (key : DomainKey) (sample_type : ℕ) (sample : List ℕ) (dst : List Record) (s : DecoderState)
    → Adds dst 1 (decode_sflow_sample key sample_type sample dst s)
unfolding decode_sflow_sample
Adds-decode_sflow_sample key sample_type sample dst s =
    elim (Bool-cases (not (nat_eqb (sample_type / 2 ^ 12) 0))) [
      | inl vendor ↦ rw (decode_sflow_sample, vendor) (Extends-none dst 1)
      | inr standard ↦ elim (Bool-cases (nat_eqb (sample_type % 2 ^ 12) 1)) [
        | inl compact ↦
            rw (decode_sflow_sample, standard, compact)
              (Adds-decode_flow_sample key sample false dst s)
        | inr other ↦ elim (Bool-cases (nat_eqb (sample_type % 2 ^ 12) 3)) [
          | inl expanded ↦
              rw (decode_sflow_sample, standard, other, expanded)
                (Adds-decode_flow_sample key sample true dst s)
          | inr unread ↦ rw (decode_sflow_sample, standard, other, unread) (Extends-none dst 1)
        ]
      ]
    ]

Grows-again :
    (dst dst' : List Record) (n : ℕ) (result : Result (List Record))
    → Extends dst 1 dst'
    → Grows dst' n result
    → Grows dst (suc n) result
Grows-again dst dst' n (err reason) one rest = tt
Grows-again dst dst' n (ok records) (new, e, few) (more, e', others) = (
  new ++ more,
  rw (e', e) (append_assoc dst new more),
  omega (arith, few, others, length-append new more),
)

GrowsBy-bind :
    (dst : List Record) (n : ℕ) (key : DomainKey) (r : ByteReader)
    (step : Option (List Record × DecoderState))
    → Adds dst 1 step
    → ((dst' : List Record) (s' : DecoderState) → GrowsBy dst' n (sflow_samples n key r dst' s'))
    → GrowsBy dst (suc n) (step >>= λ p. sflow_samples n key r p.0 p.1)
GrowsBy-bind dst n key r none adds rest = tt
GrowsBy-bind dst n key r (some (dst', s')) adds rest =
    then_on (sflow_samples n key r dst' s') (rest dst' s')
  where
    then_on :
        (later : Option (Result (List Record) × DecoderState))
        → GrowsBy dst' n later
        → GrowsBy dst (suc n) later
    then_on none grows = tt
    then_on (some (result, s'')) grows = Grows-again dst dst' n result adds grows

GrowsBy-sflow_samples :
    (n : ℕ) (key : DomainKey) (r : ByteReader) (dst : List Record) (s : DecoderState)
    → GrowsBy dst n (sflow_samples n key r dst s)
unfolding sflow_samples
GrowsBy-sflow_samples zero key r dst s = Extends-none dst 0
GrowsBy-sflow_samples (suc n) key r dst s = elim (Option-cases (read_body r).0) [
  | inl cut ↦ rw (sflow_samples, cut) tt
  | inr ((sample_type, sample), held) ↦
      rw (sflow_samples, held)
        (GrowsBy-bind dst n key (read_body r).1 _
          (Adds-decode_sflow_sample key sample_type sample dst s)
          (GrowsBy-sflow_samples n key (read_body r).1))
]

-- The records of before, and so many at most of one sub-agent behind them; or a rejection.
abbrev pub Stamps : List Record → ℕ → ℕ → Result (List Record) → Type 0
Stamps dst n odid (err reason) = Unit {0}
Stamps dst n odid (ok records) =
    (new : List Record) × (records ≡ dst ++ new)
    × (length new ≤ n)
    × All (λ (r : Record). r.odid ≡ odid) new

abbrev pub StampsBy : List Record → ℕ → ℕ → Option (Result (List Record) × DecoderState) → Type 0
StampsBy dst n odid none = Unit {0}
StampsBy dst n odid (some (result, s)) = Stamps dst n odid result

All-with_odid :
    (odid : ℕ) (new : List Record) → All (λ (r : Record). r.odid ≡ odid) (map (with_odid odid) new)
All-with_odid odid [] = tt
All-with_odid odid (r ∷ new) = (refl, All-with_odid odid new)

length-with_odid : (odid : ℕ) (new : List Record) → length (map (with_odid odid) new) ≡ length new
length-with_odid odid [] = refl
length-with_odid odid (r ∷ new) = cc (length-with_odid odid new)

StampsBy-stamped_from :
    (dst : List Record) (n odid : ℕ) (step : Option (Result (List Record) × DecoderState))
    → GrowsBy dst n step
    → StampsBy dst n odid (step >>= λ p. some (stamped_from (length dst) odid p.0, p.1))
StampsBy-stamped_from dst n odid none grows = tt
StampsBy-stamped_from dst n odid (some (err reason, s)) grows = tt
StampsBy-stamped_from dst n odid (some (ok records, s)) (new, e, few) = (
  map (with_odid odid) new,
  rw (e, take-append dst new, drop-append dst new) refl,
  omega (arith, few, length-with_odid odid new),
  All-with_odid odid new,
)

-- What the header states behind the agent's address.
abbrev pub sub_agent_id : ByteReader → ℕ
sub_agent_id r = (word_or_zero r).0

abbrev pub announced_samples : ByteReader → ℕ
announced_samples r = (word_or_zero (skip_bytes 4 (word_or_zero (word_or_zero r).1).1)).0

StampsBy-sflow_body :
    (exporter : Addr) (port : ℕ) (r : ByteReader) (dst : List Record) (at : Time) (s : DecoderState)
    → StampsBy dst (announced_samples r) (sub_agent_id r) (sflow_body exporter port r dst at s)
unfolding sflow_body
StampsBy-sflow_body exporter port r dst at s =
    let (sub_agent, r1) = word_or_zero r in
    let (sequence, r2) = word_or_zero r1 in
    let (samples, r3) = read_word (skip_bytes 4 r2) in
    let key : DomainKey = record { exporter = exporter; odid = sub_agent; proto = sflow_v5 } in
    let (store, granted) = domain key at s.templates in
    elim (Option-cases samples) [
      | inl cut ↦ rw (sflow_body, cut) tt
      | inr (n, counted) ↦ elim (Bool-cases granted) [
        | inr refused ↦
            rw (sflow_body, counted) (rw (refused) ([], sym (append_nil dst), omega arith, tt))
        | inl held ↦
            rw (sflow_body, counted)
              (rw (held) (
                StampsBy-stamped_from dst n sub_agent _ (
                  GrowsBy-sflow_samples n key r3 dst
                    (record s { templates = track_packet key port sequence store }))))
      ]
    ]

-- The cursor behind the agent's address.
abbrev pub after_agent : List ℕ → ByteReader
after_agent payload =
    let (addr_type, r) = word_or_zero (skip_bytes 4 (new_byte_reader payload)) in
    if nat_eqb addr_type 1 then skip_bytes 4 r else skip_bytes 16 r

StampsBy-decode_sflow_v5 :
    (exporter : Addr) (port : ℕ) (payload : List ℕ) (dst : List Record) (at : Time)
    (s : DecoderState)
    → StampsBy dst
        (announced_samples (after_agent payload))
        (sub_agent_id (after_agent payload))
        (decode_sflow_v5 exporter port payload dst at s)
unfolding decode_sflow_v5
StampsBy-decode_sflow_v5 exporter port payload dst at s =
    let (addr_type, r) = word_or_zero (skip_bytes 4 (new_byte_reader payload)) in
    elim (Bool-cases (nat_eqb addr_type 1)) [
      | inl ipv4 ↦
          rw (decode_sflow_v5, ipv4) (StampsBy-sflow_body exporter port (skip_bytes 4 r) dst at s)
      | inr other ↦ elim (Bool-cases (nat_eqb addr_type 2)) [
        | inl ipv6 ↦
            rw (decode_sflow_v5, other, ipv6)
              (StampsBy-sflow_body exporter port (skip_bytes 16 r) dst at s)
        | inr neither ↦ rw (decode_sflow_v5, other, neither) tt
      ]
    ]

StampsBy-at :
    (dst : List Record) (n odid : ℕ) (step : Option (Result (List Record) × DecoderState))
    (result : Result (List Record)) (s' : DecoderState)
    → step ≡ some (result, s')
    → StampsBy dst n odid step
    → Stamps dst n odid result
StampsBy-at dst n odid step result s' ends stamps = rw (ends) at stamps

-- Where every template that the store holds is sound, every sFlow v5 datagram, whatever its bytes, is
-- read to an end without a panic. Unless it is rejected, the records it was given stand as they were,
-- and behind them at most as many as the datagram announces samples, however many flow records that
-- can be read a sample holds, each stamped with the datagram's sub-agent.
pub decode_sflow_v5_lem :
    (exporter : Addr) (port : ℕ) (payload : List ℕ) (dst : List Record) (at : Time)
    (s : DecoderState)
    → IsSoundStore s.templates
    → let r = after_agent payload in
      (result : Result (List Record)) × (s' : DecoderState) × (decode_sflow_v5 exporter port payload
          dst at s
        ≡ some (result, s'))
      × Stamps dst (announced_samples r) (sub_agent_id r) result
decode_sflow_v5_lem exporter port payload dst at s sound =
    let (result, s', ends, sound') = decode_sflow_v5_total exporter port payload dst at s sound in
    (
      result,
      s',
      ends,
      StampsBy-at dst _ _ _ result s' ends
          (StampsBy-decode_sflow_v5 exporter port payload dst at s),
    )
