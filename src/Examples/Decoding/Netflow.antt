-- ===== src/Examples/Decoding/Netflow.antt =====
-- The theorems on the template store and the NetFlow v5 parser of internal/decoder at concrete inputs.
use xflow_exporter.Common.{
  ℕ, ◌*◌, ◌^◌, ◌≡◌, arith, false, List, [], ◌∷◌, ◌++◌, map, some, if◌then◌else◌,
}
use xflow_exporter.Flow.{v4, unix, netflow_v9}
use xflow_exporter.Decoder.Reason.{ok, err, malformed}
use xflow_exporter.Decoder.Domain.{DomainKey, Template, TemplateRef}
use xflow_exporter.Decoder.Store.{Store, new_store, domain}
use xflow_exporter.Decoder.Store.Accounts.{IsAccounted}
use xflow_exporter.Decoder.Store.Runs.{
  StoreCall, naming, announcing, withdrawing, sweeping_domains, store_run, store_run-IsAccounted,
}
use xflow_exporter.Decoder.Accounting.{link, write_back}
use xflow_exporter.Decoder.Netflow5.{decode_netflow_v5, netflow_v5_key, netflow_v5_sampling}
use xflow_exporter.Decoder.Netflow5.Outcome.{announced, is_well_formed, decode_netflow_v5_lem}
use xflow_exporter.Decoder.Netflow5.Wire.{
  WireFlow, WireHeader, write_datagram, flow_record, header_clock, records_of,
  decode-write_datagram,
}

abbrev branch_office : DomainKey
branch_office = record { exporter = v4 7; odid = 12; proto = netflow_v9 }

abbrev template_300 : TemplateRef
template_300 = record { port = 40000; id = 300 }

abbrev one_field : Template
one_field = record {
  fields = record { field_type = 8; length = 4; enterprise = 0 } ∷ [];
  record_len = 4;
  has_variable = false;
  scope_count = 0;
  options = false;
  refreshed_at = 0;
  noted = false;
}

abbrev store_calls : List StoreCall
store_calls =
    naming branch_office (unix 100 0)
    ∷ announcing branch_office template_300 one_field (unix 101 0)
    ∷ sweeping_domains 100 (unix 200 0)
    ∷ withdrawing branch_office template_300
    ∷ sweeping_domains (300 * 10 ^ 9) (unix 300 0)
    ∷ []

store_run-IsAccounted_example : IsAccounted (store_run store_calls (new_store 1000 60))
store_run-IsAccounted_example = store_run-IsAccounted store_calls 1000 60

abbrev flow : WireFlow
flow = record {
  src = 167772161;
  dst = 167772162;
  next_hop = 0;
  input = 3;
  output = 4;
  packets = 10;
  octets = 4096;
  first = 90000;
  last = 95000;
  src_port = 51000;
  dst_port = 443;
  pad = 0;
  flags = 27;
  protocol = 6;
  tos = 0;
  src_as = 64512;
  dst_as = 64513;
  src_mask = 24;
  dst_mask = 24;
  pad2 = 0;
}

abbrev header : WireHeader
header = record {
  uptime = 100000;
  seconds = 1700000000;
  nanos = 0;
  sequence = 77;
  engine = 0;
  sampling = 100;
}

abbrev packet : List ℕ
packet = write_datagram header (flow ∷ flow ∷ []) (0 ∷ [])

abbrev empty_store : Store
empty_store = new_store 1000 60

decode_netflow_v5_lem_example :
    let s' = (domain (netflow_v5_key (v4 7)) (unix 5 0) empty_store).0 in
    let (records, here) = announced (v4 7) 9000 packet (link (netflow_v5_key (v4 7)) s') in
    decode_netflow_v5 (v4 7) 9000 packet [] (unix 5 0) empty_store ≡ (
      if is_well_formed packet
      then some (ok ([] ++ records), write_back (netflow_v5_key (v4 7)) here s')
      else some (err malformed, empty_store))
decode_netflow_v5_lem_example = decode_netflow_v5_lem (v4 7) 9000 packet [] (unix 5 0) empty_store

decode-write_datagram_example :
    records_of (
      decode_netflow_v5
        (v4 7)
        9000
        (write_datagram header (flow ∷ flow ∷ []) (0 ∷ []))
        []
        (unix 5 0)
        empty_store)
    ≡ some (
        []
        ++ map
            (flow_record (v4 7) (header_clock header) (netflow_v5_sampling 100))
            (flow ∷ flow ∷ []))
decode-write_datagram_example =
    decode-write_datagram (v4 7) 9000 header (flow ∷ flow ∷ []) (0 ∷ []) [] (unix 5 0) empty_store
      (omega arith) (omega arith) (omega arith)
