-- ===== src/Decoder/Finish/Finished.antt =====
-- That `finishRecord` of internal/decoder/fields.go ends.
use xflow_exporter.Common.{
  ◌≡◌, refl, ◌∙◌, Bool, true, false, ◌&&◌, ◌||◌, not, some, Bool-cases, Option-cases, if◌then◌else◌,
  inl, inr, nat_eqb,
}
use xflow_exporter.Flow.{Record, addr_is_valid}
use xflow_exporter.Decoder.Clock.{ExportClock}
use xflow_exporter.Decoder.Domain.{DomainState, SamplerTable}
use xflow_exporter.Decoder.Accounting.{Link, owed_counted, count_clock_pair, count_aggregate}
use xflow_exporter.Decoder.Packets.Walking.{read_ethernet_frame_lem, Walks-read_ip_packet}
use xflow_exporter.Decoder.Fields.{FieldState}
use xflow_exporter.Decoder.Finish.{
  walk_section, resolve_packet_section, has_bytes, resolve_flow_clock, flow_clock_pair, rated,
  finish_record, record_rate, one_packet, out_packets_taken, out_bytes_taken, resolve_addrs,
}

walk_section_ends : (r : Record) (s : FieldState) → (r' : Record) × (walk_section r s ≡ some r')
unfolding walk_section
walk_section_ends r s = elim (Bool-cases (addr_is_valid r.src_addr || addr_is_valid r.dst_addr)) [
  | inl own ↦ rw own (r, refl)
  | inr bare ↦ elim (Bool-cases (has_bytes s.frame_section)) [
    | inl frame ↦
        let (r', ends, rest) = read_ethernet_frame_lem s.frame_section r in
        rw (bare, frame, ends) (r', refl)
    | inr no_frame ↦ elim (Bool-cases (has_bytes s.ip_section)) [
      | inl packet ↦
          let (r', ends, rest) = Walks-read_ip_packet s.ip_section r in
          rw (bare, no_frame, packet, ends) (r', refl)
      | inr neither ↦ rw (bare, no_frame, neither) (r, refl)
    ]
  ]
]

section_ends :
    (r : Record) (s : FieldState) → (r' : Record) × (resolve_packet_section r s ≡ some r')
unfolding resolve_packet_section
section_ends r s =
    elim (Bool-cases (not (has_bytes s.frame_section) && not (has_bytes s.ip_section))) [
      | inl neither ↦ rw neither (r, refl)
      | inr either ↦
          let (r', ends) = walk_section_ends r s in rw (either, ends) (one_packet s r', refl)
    ]

-- The domain is held still, with the templates it had.
abbrev IsHeld : DomainState → Link → Type 0
IsHeld d here =
    (d' : DomainState) × (t' : SamplerTable) × (here ≡ some (d', t')) × (d'.templates ≡ d.templates)

IsHeld-resolve_flow_clock :
    (r : Record) (s : FieldState) (clock : ExportClock) (d : DomainState) (t : SamplerTable)
    → IsHeld d (resolve_flow_clock r s clock (some (d, t))).1
unfolding resolve_flow_clock count_clock_pair
IsHeld-resolve_flow_clock r s clock d t = elim (Option-cases (flow_clock_pair s clock)) [
  | inl no_pair ↦ rw no_pair (d, t, refl, refl)
  | inr (pair, complete) ↦ rw complete (_, _, refl, refl)
]

counted-IsHeld :
    (reported empty : Bool) (d : DomainState) (t : SamplerTable)
    → IsHeld d (if reported then count_aggregate empty (some (d, t)) else some (d, t))
unfolding count_aggregate
counted-IsHeld true empty d t = (_, _, refl, refl)
counted-IsHeld false empty d t = (d, t, refl, refl)

owed_counted_templates :
    (owed : Bool) (d : DomainState) → (owed_counted owed d).templates ≡ d.templates
owed_counted_templates true d = refl
owed_counted_templates false d = refl

rated_ends :
    (r : Record) (s : FieldState) (d : DomainState) (t : SamplerTable)
    → (r' : Record) × (here : Link) × (rated r s (some (d, t)) ≡ some (r', here)) × IsHeld d here
unfolding rated
rated_ends r s d t = elim (Bool-cases (nat_eqb r.sampling_rate 0)) [
  | inl unset ↦
      let (t', (rate, owed)) = record_rate s r.input_if d t in
      rw unset (_, _, refl, (owed_counted owed d, t', refl, owed_counted_templates owed d))
  | inr own ↦ rw own (r, _, refl, (d, t, refl, refl))
]

-- On a domain that is held, whatever a record's elements held, `finishRecord` ends without a panic and
-- holds the domain still, its templates as they were.
pub finish_record_lem :
    (r : Record) (s : FieldState) (clock : ExportClock) (d : DomainState) (t : SamplerTable)
    → (r' : Record) × (d' : DomainState) × (t' : SamplerTable) × (finish_record r s clock
          (some (d, t))
        ≡ some (r', some (d', t')))
      × (d'.templates ≡ d.templates)
unfolding finish_record
finish_record_lem r s clock d t =
    let counted =
      out_packets_taken s.out_packets (out_bytes_taken s.out_bytes (resolve_addrs r s)) in
    let (walked, ends) = section_ends counted s in
    let timed = (resolve_flow_clock walked s clock (some (d, t))).0 in
    let (d1, t1, held1, same1) = IsHeld-resolve_flow_clock walked s clock d t in
    let (d2, t2, held2, same2) =
      counted-IsHeld timed.flows_reported (nat_eqb timed.flows 0) d1 t1 in
    let (r', here, ends', (d3, t3, held3, same3)) = rated_ends timed s d2 t2 in
    rw (ends, held1, held2, ends', held3) (r', d3, t3, refl, same3 ∙ same2 ∙ same1)
