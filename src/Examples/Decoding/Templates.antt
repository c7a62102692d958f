-- ===== src/Examples/Decoding/Templates.antt =====
-- The theorems on the template protocols of internal/decoder at concrete datagrams.
use xflow_exporter.Common.{
  ℕ, ◌*◌, ◌^◌, ◌≡◌, refl, ◌&&◌, ◌||◌, ◌⊎◌, some, List, [], ◌∷◌, lookup, arith, nat_eqb,
}
use xflow_exporter.Flow.{v4, v6, unix, Record, zero_record, addr_is_valid}
use xflow_exporter.Decoder.Reason.{Result}
use xflow_exporter.Decoder.Apps.{new_interner}
use xflow_exporter.Decoder.State.{DecoderState, new_decoder}
use xflow_exporter.Decoder.Soundness.{IsSoundStore}
use xflow_exporter.Decoder.Elements.{be_uint}
use xflow_exporter.Decoder.Elements.Widths.{be_number, be_uint_lem}
use xflow_exporter.Decoder.Fields.{FieldState, fresh_fields, apply_field}
use xflow_exporter.Decoder.Fields.Reported.{read_elements, occurs, IsReadOrIgnored, apply_field_lem}
use xflow_exporter.Decoder.Finish.{carries, resolve_addrs}
use xflow_exporter.Decoder.Finish.Addresses.{endpoints, resolve_addrs_whole}
use xflow_exporter.Decoder.Netflow9.{decode_netflow_v9}
use xflow_exporter.Decoder.Netflow9.Total.{decode_netflow_v9_total}
use xflow_exporter.Decoder.Ipfix.{decode_ipfix}
use xflow_exporter.Decoder.Ipfix.Total.{decode_ipfix_total}

abbrev fresh : DecoderState
fresh = new_decoder 1000 (1800 * 10 ^ 9)

IsSoundStore-fresh : IsSoundStore fresh.templates
unfolding lookup
IsSoundStore-fresh key = tt

-- A v9 datagram that announces template 256 of a source address and a byte count, and carries one
-- record of it.
abbrev v9_datagram : List ℕ
v9_datagram =
    0 ∷ 9 ∷ 0 ∷ 2 ∷ 0 ∷ 0 ∷ 3 ∷ 232 ∷ 101 ∷ 83 ∷ 241 ∷ 0 ∷ 0 ∷ 0 ∷ 0 ∷ 7 ∷ 0 ∷ 0 ∷ 0 ∷ 1 ∷ 0 ∷ 0 ∷ 0
    ∷ 16 ∷ 1 ∷ 0 ∷ 0 ∷ 2 ∷ 0 ∷ 8 ∷ 0 ∷ 4 ∷ 0 ∷ 1 ∷ 0 ∷ 4 ∷ 1 ∷ 0 ∷ 0 ∷ 12 ∷ 198 ∷ 51 ∷ 100 ∷ 7 ∷ 0
    ∷ 0 ∷ 5 ∷ 220 ∷ []

decode_netflow_v9_total_example :
    (result : Result (List Record)) × (s' : DecoderState) × (decode_netflow_v9
        (v4 7)
        2055
        v9_datagram
        []
        (unix 100 0)
        fresh
      ≡ some (result, s'))
    × IsSoundStore s'.templates
decode_netflow_v9_total_example =
    decode_netflow_v9_total (v4 7) 2055 v9_datagram [] (unix 100 0) fresh IsSoundStore-fresh

-- The same in an IPFIX message.
abbrev ipfix_message : List ℕ
ipfix_message =
    0 ∷ 10 ∷ 0 ∷ 44 ∷ 101 ∷ 83 ∷ 241 ∷ 0 ∷ 0 ∷ 0 ∷ 0 ∷ 7 ∷ 0 ∷ 0 ∷ 0 ∷ 1 ∷ 0 ∷ 2 ∷ 0 ∷ 16 ∷ 1 ∷ 0
    ∷ 0 ∷ 2 ∷ 0 ∷ 8 ∷ 0 ∷ 4 ∷ 0 ∷ 1 ∷ 0 ∷ 4 ∷ 1 ∷ 0 ∷ 0 ∷ 12 ∷ 198 ∷ 51 ∷ 100 ∷ 7 ∷ 0 ∷ 0 ∷ 5 ∷ 220
    ∷ []

decode_ipfix_total_example :
    (result : Result (List Record)) × (s' : DecoderState) × (decode_ipfix
        (v4 7)
        4739
        ipfix_message
        []
        (unix 100 0)
        fresh
      ≡ some (result, s'))
    × IsSoundStore s'.templates
decode_ipfix_total_example =
    decode_ipfix_total (v4 7) 4739 ipfix_message [] (unix 100 0) fresh IsSoundStore-fresh

be_uint_lem_example : be_uint (1 ∷ 2 ∷ 3 ∷ []) ≡ some (be_number (1 ∷ 2 ∷ 3 ∷ []))
be_uint_lem_example = be_uint_lem (1 ∷ 2 ∷ 3 ∷ []) (omega arith, (omega arith, (omega arith, tt)))

abbrev no_fields : FieldState
no_fields = fresh_fields new_interner (record { port = 2055; id = 256 })

apply_field_lem_example :
    let a = apply_field zero_record no_fields 33002 0 (1 ∷ []) in
    (a.2 ≡ (nat_eqb 0 0 && occurs 33002 read_elements)) × IsReadOrIgnored a zero_record no_fields
apply_field_lem_example = apply_field_lem zero_record no_fields 33002 0 (1 ∷ [])

-- A dual-stack record whose IPv4 pair is filler.
abbrev dual_stack : FieldState
dual_stack = record no_fields {
  ipv4 = record { src = v4 0; dst = v4 0 };
  ipv6 = record { src = v6 1 []; dst = v6 2 [] };
}

resolve_addrs_whole_example :
    let taken = endpoints (resolve_addrs zero_record dual_stack) in
    ((taken ≡ dual_stack.ipv4) ⊎ (taken ≡ dual_stack.ipv6))
    × (carries taken ≡ (carries dual_stack.ipv4 || carries dual_stack.ipv6))
unfolding addr_is_valid
resolve_addrs_whole_example = resolve_addrs_whole zero_record dual_stack refl refl
