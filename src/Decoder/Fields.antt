-- ===== src/Decoder/Fields.antt =====
-- internal/decoder/fields.go: the elements of a data record read into a flow record. A value that the
-- source keeps beside a flag of its own is an option here: it is not read where the flag is false.
pub mod Reported
use xflow_exporter.Common.{
  ℕ, ◌+◌, ◌*◌, ◌%◌, ◌^◌, Bool, true, false, not, ◌&&◌, ◌||◌, Option, none, some, List, [],
  if◌then◌else◌, leb, nat_eqb, length,
}
use xflow_exporter.Common.Bytes.{word32}
use xflow_exporter.Flow.{Addr, no_addr, v4, Record, Time}
use xflow_exporter.Decoder.Domain.{TemplateRef}
use xflow_exporter.Decoder.Apps.{Interner, intern}
use xflow_exporter.Decoder.Packets.{addr_from16, word128}
use xflow_exporter.Decoder.Elements.{
  be_uint, be_uint8, be_uint16, be_uint32, application_id, unix_seconds, unix_milliseconds,
  past_epoch, flow_direction,
}

-- `addrPair`
pub record AddrPair : Type 0 where
  pub src : Addr
  pub dst : Addr

abbrev pub no_pair : AddrPair
no_pair = record { src = no_addr; dst = no_addr }

-- `fieldState`; the interner that it points to is its field `strings`.
pub record FieldState : Type 0 where
  pub first_uptime : Option ℕ
  pub last_uptime : Option ℕ
  pub boot_at : Time
  pub start_abs : Time
  pub end_abs : Time
  pub out_bytes : Option ℕ
  pub out_packets : Option ℕ
  pub strings : Interner
  pub ipv4 : AddrPair
  pub ipv6 : AddrPair
  pub sampler : Option ℕ
  pub selector : Option ℕ
  pub template : TemplateRef
  pub frame_section : List ℕ
  pub ip_section : List ℕ
  pub frame_size : ℕ

-- `fieldState{intern: …, template: …}`
abbrev pub fresh_fields : Interner → TemplateRef → FieldState
fresh_fields strings template = record {
  first_uptime = none;
  last_uptime = none;
  boot_at = 0;
  start_abs = 0;
  end_abs = 0;
  out_bytes = none;
  out_packets = none;
  strings = strings;
  ipv4 = no_pair;
  ipv6 = no_pair;
  sampler = none;
  selector = none;
  template = template;
  frame_section = [];
  ip_section = [];
  frame_size = 0;
}

-- What an element leaves: the record, the state, and whether a reader consumes the element.
abbrev pub Applied : Type 0
Applied = Record × FieldState × Bool

-- `if v, ok := …; ok { … }`: a value that is not read changes nothing.
abbrev pub on_read : {A : Type 0} → Option ℕ → A → (ℕ → A) → A
on_read none unread change = unread
on_read (some v) unread change = change v

abbrev set_record : Option ℕ → Record → FieldState → (ℕ → Record) → Applied
set_record value r s change = (on_read value r change, s, true)

abbrev set_state : Option ℕ → Record → FieldState → (ℕ → FieldState) → Applied
set_state value r s change = (r, on_read value s change, true)

abbrev pub or_zero : Option ℕ → ℕ
or_zero none = 0
or_zero (some v) = v

-- `applySectionField`
unfoldable pub apply_section_field : FieldState → ℕ → List ℕ → FieldState × Bool
unfolding be_uint
apply_section_field s field_type value =
    if nat_eqb field_type 104 || nat_eqb field_type 315
    then (record s { frame_section = value }, true)
    else if nat_eqb field_type 313
    then (record s { ip_section = value }, true)
    else if nat_eqb field_type 312
    then (record s { frame_size = or_zero (be_uint value) }, true)
    else (s, false)

abbrev pub inline_name : Record → FieldState → List ℕ → Applied
inline_name r s value =
    let (strings, name) = intern value s.strings in
    (record r { app_name = name }, record s { strings = strings }, true)

-- `applyRareField`, behind the sections
unfoldable pub apply_unsectioned_field : Record → FieldState → ℕ → List ℕ → Applied
unfolding be_uint32 unix_milliseconds unix_seconds past_epoch intern
apply_unsectioned_field r s field_type value =
    if nat_eqb field_type 22
    then (r, record s { first_uptime = be_uint32 value }, true)
    else if nat_eqb field_type 21
    then (r, record s { last_uptime = be_uint32 value }, true)
    else if nat_eqb field_type 160
    then set_state (unix_milliseconds value) r s (λ at. record s { boot_at = at })
    else if nat_eqb field_type 150
    then set_state (past_epoch (unix_seconds value)) r s (λ at. record s { start_abs = at })
    else if nat_eqb field_type 151
    then set_state (past_epoch (unix_seconds value)) r s (λ at. record s { end_abs = at })
    else if nat_eqb field_type 152
    then set_state (past_epoch (unix_milliseconds value)) r s (λ at. record s { start_abs = at })
    else if nat_eqb field_type 153
    then set_state (past_epoch (unix_milliseconds value)) r s (λ at. record s { end_abs = at })
    else if nat_eqb field_type 96
    then inline_name r s value
    else if nat_eqb field_type 56701
    then inline_name r s value
    else (r, s, false)

abbrev pub section_or_rare : Record → FieldState × Bool → ℕ → List ℕ → Applied
section_or_rare r (s, true) field_type value = (r, s, true)
section_or_rare r (s, false) field_type value = apply_unsectioned_field r s field_type value

-- `applyRareField`
unfoldable pub apply_rare_field : Record → FieldState → ℕ → List ℕ → Applied
unfolding apply_section_field apply_unsectioned_field
apply_rare_field r s field_type value =
    section_or_rare r (apply_section_field s field_type value) field_type value

-- The code point of IE 195, where it is one and no TOS byte was read before it.
abbrev pub set_dscp : Option ℕ → Record → Record
set_dscp none r = r
set_dscp (some v) r =
    if leb v 63 && not r.tos_reported
    then record r { tos = v * 4 % 256; tos_reported = true }
    else r

-- The address elements, each of its one length.
abbrev pub addr_of4 : List ℕ → Option ℕ
addr_of4 value = if nat_eqb (length value) 4 then some (word32 value 0) else none

abbrev pub addr_of16 : List ℕ → Option ℕ
addr_of16 value = if nat_eqb (length value) 16 then some (word128 value 0) else none

-- The counters, the TOS byte and the flags of the `switch` of `applyField`, and behind them the rest.
unfoldable pub apply_counter : Record → FieldState → ℕ → List ℕ → Applied → Applied
unfolding be_uint be_uint8 be_uint16 flow_direction
apply_counter r s field_type value others =
    if nat_eqb field_type 1
    then set_record (be_uint value) r s (λ v. record r { bytes = v; bytes_reported = true })
    else if nat_eqb field_type 2
    then set_record (be_uint value) r s (λ v. record r { packets = v; packets_reported = true })
    else if nat_eqb field_type 3
    then set_record (be_uint value) r s (λ v. record r { flows = v; flows_reported = true })
    else if nat_eqb field_type 23
    then set_state (be_uint value) r s (λ v. record s { out_bytes = some v })
    else if nat_eqb field_type 24
    then set_state (be_uint value) r s (λ v. record s { out_packets = some v })
    else if nat_eqb field_type 4
    then set_record (be_uint8 value) r s (λ v. record r { protocol = v })
    else if nat_eqb field_type 61
    then (record r { direction = flow_direction value }, s, true)
    else if nat_eqb field_type 5
    then set_record (be_uint8 value) r s (λ v. record r { tos = v; tos_reported = true })
    else if nat_eqb field_type 195
    then (set_dscp (be_uint8 value) r, s, true)
    else if nat_eqb field_type 6
    then set_record (be_uint16 value) r s
        (λ v. record r { tcp_flags = v % 256; tcp_flags_reported = true })
    else others

-- The ports and the addresses.
unfoldable pub apply_endpoint : Record → FieldState → ℕ → List ℕ → Applied → Applied
unfolding be_uint8 be_uint16 addr_from16
apply_endpoint r s field_type value others =
    if nat_eqb field_type 7
    then set_record (be_uint16 value) r s (λ v. record r { src_port = v })
    else if nat_eqb field_type 11
    then set_record (be_uint16 value) r s (λ v. record r { dst_port = v })
    else if nat_eqb field_type 8
    then set_state (addr_of4 value) r s (λ v. record s { ipv4 = record s.ipv4 { src = v4 v } })
    else if nat_eqb field_type 12
    then set_state (addr_of4 value) r s (λ v. record s { ipv4 = record s.ipv4 { dst = v4 v } })
    else if nat_eqb field_type 27
    then set_state (addr_of16 value) r s
        (λ v. record s { ipv6 = record s.ipv6 { src = addr_from16 v } })
    else if nat_eqb field_type 28
    then set_state (addr_of16 value) r s
        (λ v. record s { ipv6 = record s.ipv6 { dst = addr_from16 v } })
    else others

-- The masks, the interfaces, the autonomous systems and the identifiers.
unfoldable pub apply_context : Record → FieldState → ℕ → List ℕ → Applied → Applied
unfolding be_uint8 be_uint32 application_id
apply_context r s field_type value others =
    if nat_eqb field_type 9 || nat_eqb field_type 29
    then set_record (be_uint8 value) r s (λ v. record r { src_mask = v })
    else if nat_eqb field_type 13 || nat_eqb field_type 30
    then set_record (be_uint8 value) r s (λ v. record r { dst_mask = v })
    else if nat_eqb field_type 10
    then set_record (be_uint32 value) r s (λ v. record r { input_if = v })
    else if nat_eqb field_type 14
    then set_record (be_uint32 value) r s (λ v. record r { output_if = v })
    else if nat_eqb field_type 16
    then set_record (be_uint32 value) r s (λ v. record r { src_as = v })
    else if nat_eqb field_type 17
    then set_record (be_uint32 value) r s (λ v. record r { dst_as = v })
    else if nat_eqb field_type 95
    then set_record (application_id value) r s (λ v. record r { app_id = v })
    else if nat_eqb field_type 48
    then (r, record s { sampler = be_uint32 value }, true)
    else if nat_eqb field_type 302
    then (r, record s { selector = be_uint32 value }, true)
    else others

-- `applyField`
unfoldable pub apply_field : Record → FieldState → ℕ → ℕ → List ℕ → Applied
unfolding apply_counter apply_endpoint apply_context apply_rare_field
apply_field r s field_type enterprise value =
    if not (nat_eqb enterprise 0)
    then (r, s, false)
    else apply_counter r s field_type value (
        apply_endpoint r s field_type value
          (apply_context r s field_type value (apply_rare_field r s field_type value)))
