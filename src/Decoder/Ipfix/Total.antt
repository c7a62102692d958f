-- ===== src/Decoder/Ipfix/Total.antt =====
-- Whatever bytes an IPFIX message holds, internal/decoder/ipfix.go reads it to an end.
use xflow_exporter.Common.{
  ℕ, zero, suc, ◌+◌, ◌-◌, ◌%◌, ◌^◌, ◌≤◌, ◌<◌, ◌≡◌, refl, sym, ◌∙◌, Bool, true, false, not, ◌||◌,
  Option, none, some, List, leb, ltb, nat_eqb, length, take, drop, Bool-cases, Option-cases, inl,
  inr, arith, leb→le, length-take,
}
use xflow_exporter.Common.Bytes.{
  slice-inside, be16_at-inside, be32_at-inside, word16, word32, ◌>>=◌,
}
use xflow_exporter.Flow.{Addr, Record, Time, ipfix, unix}
use xflow_exporter.Decoder.Reason.{Result, ok, err, malformed}
use xflow_exporter.Decoder.Clock.{ExportClock}
use xflow_exporter.Decoder.Domain.{DomainKey, DomainState, Template, domain_key_eq}
use xflow_exporter.Decoder.Sequence.{track_record_sequence, session_of}
use xflow_exporter.Decoder.Store.{Store, domain}
use xflow_exporter.Decoder.State.{DecoderState, issue}
use xflow_exporter.Decoder.Soundness.{IsReady, IsSoundStore, IsSound-insert, present_insert}
use xflow_exporter.Decoder.Soundness.Storing.{ready_domain, IsGranted-domain}
use xflow_exporter.Decoder.Soundness.Registering.{IsReady-register, IsReady-unregister}
use xflow_exporter.Decoder.DataFlowSets.Walking.{EndsWith, EndsWith-if}
use xflow_exporter.Decoder.TemplateSets.{min_data_set_id}
use xflow_exporter.Decoder.TemplateSets.Compiling.{
  is_measured_if_any, parse_ipfix_templates_ends, parse_ipfix_options_templates_ends,
}
use xflow_exporter.Decoder.IpfixLengths.Checking.{is_framed, check_ipfix_lengths_end}
use xflow_exporter.Decoder.DataSets.{SetRead}
use xflow_exporter.Decoder.Ipfix.{
  untouched, register_at, decode_ipfix_set, ipfix_sets, track_records, ipfix_body, ipfix_message,
  decode_ipfix,
}
use xflow_exporter.Decoder.DataSets.Reading.{decode_ipfix_data_set_ends}

untouched_ends :
    (key : DomainKey) (dst : List Record) (complete : Bool) (step : Option DecoderState)
    (s' : DecoderState)
    → step ≡ some s'
    → IsReady key s'.templates
    → EndsWith key (untouched dst complete step)
untouched_ends key dst complete step s' ends ready = rw (ends) (_, s', refl, ready)

IsReady-register_at :
    (key : DomainKey) (port : ℕ) (at : Time) (id : ℕ) (t : Option Template) (s : DecoderState)
    → is_measured_if_any t ≡ true
    → IsReady key s.templates
    → IsReady key (register_at key port at id t s).templates
IsReady-register_at key port at id none s measured ready = IsReady-unregister key _ at s ready
IsReady-register_at key port at id (some t) s measured ready =
    IsReady-register key _ t at s measured ready

decode_ipfix_set_ends :
    (key : DomainKey) (port set_id : ℕ) (set : List ℕ) (complete : Bool) (clock : ExportClock)
    (at : Time) (dst : List Record) (s : DecoderState)
    → IsReady key s.templates
    → EndsWith key (decode_ipfix_set key port set_id set complete clock at dst s)
unfolding decode_ipfix_set issue
decode_ipfix_set_ends key port set_id set complete clock at dst s ready =
    EndsWith-if key (nat_eqb set_id 2) _ _
      (λ templates.
        let (s', ends, ready') =
          parse_ipfix_templates_ends (register_at key port at) s.templates.max_fields
            (λ s'. IsReady key s'.templates) (IsReady-register_at key port at) set s ready in
        untouched_ends key dst complete _ s' ends ready')
      (λ _.
        EndsWith-if key (nat_eqb set_id 3) _ _
          (λ options.
            let (s', ends, ready') =
              parse_ipfix_options_templates_ends (register_at key port at) s.templates.max_fields
                (λ s'. IsReady key s'.templates) (IsReady-register_at key port at) set s ready in
            untouched_ends key dst complete _ s' ends ready')
          (λ _.
            EndsWith-if key (leb min_data_set_id set_id) _ _
              (λ data_set.
                decode_ipfix_data_set_ends key port set_id set complete clock at dst s ready)
              (λ reserved. (_, _, refl, ready))))

ipfix_sets_end :
    (fuel : ℕ) (key : DomainKey) (port : ℕ) (msg : List ℕ) (offset : ℕ) (clock : ExportClock)
    (at : Time) (so_far : SetRead) (s : DecoderState)
    → is_framed fuel msg offset ≡ true
    → 0 < fuel
    → length msg < offset + fuel
    → IsReady key s.templates
    → EndsWith key (ipfix_sets fuel key port msg offset clock at so_far s)
unfolding ipfix_sets is_framed
ipfix_sets_end zero key port msg offset clock at so_far s framed h enough ready = ground arith
ipfix_sets_end (suc fuel) key port msg offset clock at so_far s framed h enough ready =
    elim (Bool-cases (leb (offset + 4) (length msg))) [
      | inr done ↦ rw (ipfix_sets, done) (so_far, s, refl, ready)
      | inl more ↦
          let le = leb→le (offset + 4) (length msg) more in
          let id = be16_at-inside msg offset (omega (arith, le)) in
          let size = be16_at-inside msg (offset + 2) (omega (arith, le)) in
          let set_len = word16 msg (offset + 2) in
          let inside : not (ltb set_len 4 || ltb (length msg) (offset + set_len)) ≡ true =
            ground arith in
          let rest : is_framed fuel msg (offset + set_len) ≡ true = ground arith in
          let cut =
            slice-inside msg (offset + 4) (offset + set_len) (ground arith) (ground arith) in
          let set = take (offset + set_len - (offset + 4)) (drop (offset + 4) msg) in
          let (read, s', ends, ready') =
            decode_ipfix_set_ends key port (word16 msg offset) set so_far.complete clock at
              so_far.dst s ready in
          rw (ipfix_sets, more, id, size)
            (rw (◌>>=◌, cut, ends)
              (ipfix_sets_end fuel key port msg (offset + set_len) clock at
                (record read { records = so_far.records + read.records }) s' rest (ground arith)
                (ground arith) ready'))
    ]

track_record_sequence_templates :
    (d : DomainState) (port seq records engine : ℕ) (complete : Bool)
    → (track_record_sequence d port seq records engine complete).templates ≡ d.templates
unfolding track_record_sequence
track_record_sequence_templates d port seq records engine complete =
    elim (Option-cases (session_of d port d.last_seen)) [
      | inl full ↦ rw (track_record_sequence, full) refl
      | inr (session, found) ↦ rw (track_record_sequence, found) refl
    ]

IsReady-track_records :
    (key : DomainKey) (port seq : ℕ) (read : SetRead) (s : Store)
    → IsReady key s
    → IsReady key (track_records key port seq read s)
unfolding track_records
IsReady-track_records key port seq read s ready =
    let (d, held, own, table) = ready_domain key s ready in
    let d' = track_record_sequence d port seq (read.records % 2 ^ 32) 0 read.complete in
    let same = track_record_sequence_templates d port seq (read.records % 2 ^ 32) 0 read.complete in
    rw (track_records, held)
      (
        IsSound-insert key d' s.domains s.sampler_tables ready.0 (λ ref. rw (same) (own ref)) table,
        present_insert key d' s.domains,
      )

ipfix_message_ends :
    (key : DomainKey) (port seq : ℕ) (msg : List ℕ) (clock : ExportClock) (at : Time)
    (dst : List Record) (s : DecoderState)
    → 16 ≤ length msg
    → IsReady key s.templates
    → EndsWith key (ipfix_message key port seq msg clock at dst s)
unfolding ipfix_message ipfix_body
ipfix_message_ends key port seq msg clock at dst s h ready =
    let (store, fits, ends, ready', framed) =
      check_ipfix_lengths_end key port msg at s.templates h ready in
    elim (Bool-cases fits) [
      | inr broken ↦ rw (ipfix_message, ends) (rw (◌>>=◌, broken) (err malformed, _, refl, ready'))
      | inl whole ↦
          let (read, s', ends', ready'') =
            ipfix_sets_end (length msg) key port msg 16 clock at
              (record { dst = dst; records = 0; complete = true }) (record s { templates = store })
              (ground (arith, framed)) (omega (arith, h)) (omega (arith, h)) ready' in
          rw (ipfix_message, ends)
            (rw (◌>>=◌, whole, ends')
              (ok read.dst, _, refl, IsReady-track_records key port seq read s'.templates ready''))
    ]

-- Where every template that the store holds is sound, every IPFIX message, whatever its bytes, is read
-- to an end without a panic: the fuel of each loop is enough, every read lies inside its slice, and the
-- store's templates are sound afterwards.
pub decode_ipfix_total :
    (exporter : Addr) (port : ℕ) (payload : List ℕ) (dst : List Record) (at : Time)
    (s : DecoderState)
    → IsSoundStore s.templates
    → (result : Result (List Record)) × (s' : DecoderState) × (decode_ipfix exporter port payload
          dst at s
        ≡ some (result, s'))
      × IsSoundStore s'.templates
unfolding decode_ipfix issue
decode_ipfix_total exporter port payload dst at s sound =
    elim (Bool-cases (ltb (length payload) 16)) [
      | inl short ↦ rw (decode_ipfix, short) (err malformed, s, refl, sound)
      | inr whole ↦
          let size = be16_at-inside payload 2 (ground arith) in
          let msg_len = word16 payload 2 in
          elim (Bool-cases (ltb msg_len 16 || ltb (length payload) msg_len)) [
            | inl misfit ↦ rw (decode_ipfix, whole, size, misfit) (err malformed, s, refl, sound)
            | inr fits ↦
                let key : DomainKey = record {
                  exporter = exporter;
                  odid = word32 payload 12;
                  proto = ipfix;
                } in
                let clock : ExportClock = record {
                  at = unix (word32 payload 4) 0;
                  uptime_ms = 0;
                  has_uptime = false;
                } in
                let secs = be32_at-inside payload 4 (ground arith) in
                let seq = be32_at-inside payload 8 (ground arith) in
                let odid = be32_at-inside payload 12 (ground arith) in
                let (store, granted) = domain key at s.templates in
                let (sound', present) = IsGranted-domain key at s.templates sound in
                elim (Bool-cases granted) [
                  | inr refused ↦
                      rw (decode_ipfix, whole, size, fits, secs, seq, odid, refused)
                        (ok dst, _, refl, sound')
                  | inl held ↦
                      let msg = take msg_len payload in
                      let long : 16 ≤ length msg =
                        ground (arith, length-take msg_len payload (ground arith)) in
                      let (result, s', ends, ready') =
                        ipfix_message_ends key port (word32 payload 8) msg clock at dst
                          (record s { templates = store }) long (sound', sym present ∙ held) in
                      rw (decode_ipfix, whole, size, fits, secs, seq, odid, held, ends)
                        (result, s', refl, ready'.0)
                ]
          ]
    ]
