-- ===== src/Decoder/Netflow9/Total.antt =====
-- Whatever bytes a NetFlow v9 datagram holds, internal/decoder/netflow9.go reads it to an end.
use xflow_exporter.Common.{
  ℕ, zero, suc, ◌+◌, ◌<◌, ◌≡◌, refl, sym, ◌∙◌, ◌-◌, true, Option, some, List, ◌||◌, leb, ltb,
  nat_eqb, lookup, is_some, length, take, drop, Bool-cases, Option-cases, inl, inr, arith, leb→le,
}
use xflow_exporter.Common.Bytes.{
  slice-inside, be16_at-inside, be32_at-inside, word16, word32, ◌>>=◌,
}
use xflow_exporter.Flow.{Addr, Record, Time, netflow_v9, unix}
use xflow_exporter.Decoder.Reason.{Result, ok, err, malformed}
use xflow_exporter.Decoder.Clock.{ExportClock}
use xflow_exporter.Decoder.Domain.{DomainKey, DomainState, domain_key_eq, sampler_key_eq}
use xflow_exporter.Decoder.Sequence.{track_sequence, session_of}
use xflow_exporter.Decoder.Store.{Store, domain}
use xflow_exporter.Decoder.State.{DecoderState, issue}
use xflow_exporter.Decoder.Soundness.{
  IsReady, IsSoundStore, IsSound-insert, IsSound-lookup, present_insert,
}
use xflow_exporter.Decoder.Soundness.Storing.{ready_domain, IsGranted-domain}
use xflow_exporter.Decoder.TemplateFlowSets.{v9_min_data_set_id}
use xflow_exporter.Decoder.TemplateFlowSets.Announcing.{
  Ends, parse_v9_templates-Ends, parse_v9_options_templates-Ends,
}
use xflow_exporter.Decoder.DataFlowSets.Walking.{EndsWith, EndsWith-if, decode_v9_data_set_ends}
use xflow_exporter.Decoder.Netflow9.{
  keep_records, decode_v9_flow_set, v9_flow_sets, track_packet, decode_netflow_v9,
}

keep_records-Ends :
    (key : DomainKey) (dst : List Record) (step : Option DecoderState)
    → Ends key step
    → EndsWith key (keep_records dst step)
keep_records-Ends key dst step (s', ends, ready) = rw (ends) (dst, s', refl, ready)

decode_v9_flow_set_ends :
    (key : DomainKey) (port set_id : ℕ) (set : List ℕ) (clock : ExportClock) (at : Time)
    (dst : List Record) (s : DecoderState)
    → IsReady key s.templates
    → EndsWith key (decode_v9_flow_set key port set_id set clock at dst s)
unfolding decode_v9_flow_set issue
decode_v9_flow_set_ends key port set_id set clock at dst s ready =
    EndsWith-if key (nat_eqb set_id 0) _ _
      (λ templates. keep_records-Ends key dst _ (parse_v9_templates-Ends key port set at s ready))
      (λ _.
        EndsWith-if key (nat_eqb set_id 1) _ _
          (λ options.
            keep_records-Ends key dst _ (parse_v9_options_templates-Ends key port set at s ready))
          (λ _.
            EndsWith-if key (leb v9_min_data_set_id set_id) _ _
              (λ data_set. decode_v9_data_set_ends key port set_id set clock at dst s ready)
              (λ reserved. (dst, _, refl, ready))))

v9_flow_sets_ends :
    (fuel : ℕ) (key : DomainKey) (port : ℕ) (payload : List ℕ) (offset : ℕ) (clock : ExportClock)
    (at : Time) (dst : List Record) (s : DecoderState)
    → 0 < fuel
    → length payload < offset + fuel
    → IsReady key s.templates
    → EndsWith key (v9_flow_sets fuel key port payload offset clock at dst s)
unfolding v9_flow_sets
v9_flow_sets_ends zero key port payload offset clock at dst s h enough ready = ground arith
v9_flow_sets_ends (suc fuel) key port payload offset clock at dst s h enough ready =
    elim (Bool-cases (leb (offset + 4) (length payload))) [
      | inr done ↦ rw (v9_flow_sets, done) (ok dst, s, refl, ready)
      | inl more ↦
          let le = leb→le (offset + 4) (length payload) more in
          let id = be16_at-inside payload offset (omega (arith, le)) in
          let size = be16_at-inside payload (offset + 2) (omega (arith, le)) in
          let set_len = word16 payload (offset + 2) in
          elim (Bool-cases (ltb set_len 4 || ltb (length payload) (offset + set_len))) [
            | inl broken ↦
                rw (v9_flow_sets, more, id, size)
                  (rw (◌>>=◌, broken) (err malformed, s, refl, ready))
            | inr framed ↦
                let cut =
                  slice-inside payload (offset + 4) (offset + set_len) (ground arith)
                    (ground arith) in
                let set = take (offset + set_len - (offset + 4)) (drop (offset + 4) payload) in
                let (dst', s', ends, ready') =
                  decode_v9_flow_set_ends key port (word16 payload offset) set clock at dst s
                    ready in
                rw (v9_flow_sets, more, id, size)
                  (rw (◌>>=◌, framed, cut, ends)
                    (v9_flow_sets_ends fuel key port payload (offset + set_len) clock at dst' s'
                      (ground arith) (ground arith) ready'))
          ]
    ]

track_sequence_templates :
    (d : DomainState) (port seq : ℕ) → (track_sequence d port seq).templates ≡ d.templates
unfolding track_sequence
track_sequence_templates d port seq = elim (Option-cases (session_of d port d.last_seen)) [
  | inl full ↦ rw (track_sequence, full) refl
  | inr (session, found) ↦ rw (track_sequence, found) refl
]

pub IsSoundStore-track_packet :
    (key : DomainKey) (port seq : ℕ) (s : Store)
    → IsSoundStore s
    → IsSoundStore (track_packet key port seq s)
unfolding track_packet
IsSoundStore-track_packet key port seq s sound = elim (Option-cases (lookup key s.domains)) [
  | inl absent ↦ rw (track_packet, absent) sound
  | inr (d, held) ↦
      let (own, table) = IsSound-lookup key s d sound held in
      rw (track_packet, held)
        (IsSound-insert key (track_sequence d port seq) s.domains s.sampler_tables sound
          (λ ref. rw (track_sequence_templates d port seq) (own ref)) table)
]

IsReady-track_packet :
    (key : DomainKey) (port seq : ℕ) (s : Store)
    → IsReady key s
    → IsReady key (track_packet key port seq s)
IsReady-track_packet key port seq s ready =
    (IsSoundStore-track_packet key port seq s ready.0, still)
  where
    still : is_some (lookup key (track_packet key port seq s).domains) ≡ true
    still =
        unfold track_packet in
        let (d, held, own, table) = ready_domain key s ready in
        rw (track_packet, held) (present_insert key (track_sequence d port seq) s.domains)

-- Where every template that the store holds is sound, every NetFlow v9 datagram, whatever its bytes,
-- is read to an end without a panic: the fuel of each loop is enough, every read lies inside its
-- slice, no length is divided by zero, and the store's templates are sound afterwards.
pub decode_netflow_v9_total :
    (exporter : Addr) (port : ℕ) (payload : List ℕ) (dst : List Record) (at : Time)
    (s : DecoderState)
    → IsSoundStore s.templates
    → (result : Result (List Record)) × (s' : DecoderState) × (decode_netflow_v9 exporter port
          payload dst at s
        ≡ some (result, s'))
      × IsSoundStore s'.templates
unfolding decode_netflow_v9 issue
decode_netflow_v9_total exporter port payload dst at s sound =
    elim (Bool-cases (ltb (length payload) 20)) [
      | inl short ↦ rw (decode_netflow_v9, short) (err malformed, s, refl, sound)
      | inr whole ↦
          let key : DomainKey = record {
            exporter = exporter;
            odid = word32 payload 16;
            proto = netflow_v9;
          } in
          let clock : ExportClock = record {
            at = unix (word32 payload 8) 0;
            uptime_ms = word32 payload 4;
            has_uptime = true;
          } in
          let (store, granted) = domain key at s.templates in
          let (sound', present) = IsGranted-domain key at s.templates sound in
          elim (Bool-cases granted) [
            | inr refused ↦
                rw
                  (
                    decode_netflow_v9,
                    whole,
                    be32_at-inside payload 4 (ground arith),
                    be32_at-inside payload 8 (ground arith),
                    be32_at-inside payload 12 (ground arith),
                    be32_at-inside payload 16 (ground arith),
                    refused,
                  )
                  (ok dst, _, refl, sound')
            | inl held ↦
                let seq = word32 payload 12 in
                let ready = IsReady-track_packet key port seq store (sound', sym present ∙ held) in
                let (result, s', ends, ready') =
                  v9_flow_sets_ends (length payload) key port payload 20 clock at dst
                    (record s { templates = track_packet key port seq store }) (ground arith)
                    (omega arith) ready in
                rw
                  (
                    decode_netflow_v9,
                    whole,
                    be32_at-inside payload 4 (ground arith),
                    be32_at-inside payload 8 (ground arith),
                    be32_at-inside payload 12 (ground arith),
                    be32_at-inside payload 16 (ground arith),
                    held,
                    ends,
                  )
                  (result, s', refl, ready'.0)
          ]
    ]
