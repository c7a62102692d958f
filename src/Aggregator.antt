-- ===== src/Aggregator.antt =====
-- internal/aggregator/aggregator.go: the eleven tables, which record feeds which of them under which
-- key, the sweep and the snapshots. `now` is the clock's reading, an argument here.
pub mod Tables
pub mod Keys
pub mod Application
pub mod ServicePort
pub mod Feeding
pub mod Conservation
pub mod Bounded
use xflow_exporter.Common.{
  ℕ, ◌+◌, ◌-◌, ◌*◌, ◌/◌, ◌%◌, ◌^◌, String, Bool, true, false, not, ◌&&◌, ◌||◌, Option, none, some,
  List, [], ◌∷◌, ◌++◌, if◌then◌else◌, nat_eqb, Comparable, ◌==◌,
}
use xflow_exporter.Common.Bytes.{Text, is_empty}
use xflow_exporter.Common.Decimal.{format_uint}
use xflow_exporter.Flow.{
  Addr, addr_is_valid, Version, Direction, Record, aggregated, corrected, app_selector_bits,
}
use xflow_exporter.Aggregator.Tables.{
  Table, Totals, zero_totals, Reading, EntrySnapshot, new_table, add, sweep, size, stats, snapshot,
}
use xflow_exporter.Aggregator.Keys.{
  Endpoint, endpoint_dst, endpoint_src, ExporterKey, HostKey, ServiceKey, DestinationKey,
  TcpFlagsKey, DscpKey, AsnKey, AppKey, CountryKey, ThreatKey, VlanKey, exporter_key_eq,
  host_key_eq, service_key_eq, destination_key_eq, tcp_flags_key_eq, dscp_key_eq, asn_key_eq,
  app_key_eq, country_key_eq, threat_key_eq, vlan_key_eq,
}

-- `Modules`: which aggregations are enabled
pub record Modules : Type 0 where
  pub exporters : Bool
  pub hosts : Bool
  pub services : Bool
  pub destinations : Bool
  pub tcp_flags : Bool
  pub dscp : Bool
  pub asns : Bool
  pub applications : Bool
  pub countries : Bool
  pub threats : Bool
  pub vlans : Bool

-- `Modules.Any`
unfoldable pub any_module : Modules → Bool
any_module m =
    m.exporters || m.hosts || m.services || m.destinations || m.tcp_flags || m.dscp || m.asns
    || m.applications || m.countries || m.threats || m.vlans

-- `Config`'s part that the tables read: `MaxEntries` and `EntryTTL` in nanoseconds
pub record Aggregation : Type 0 where
  pub max_entries : ℕ
  pub entry_ttl : ℕ

-- The predicate that says which port of a protocol names a service; nil where none was set.
abbrev pub ServiceLookup : Type 0
ServiceLookup = Option (ℕ → ℕ → Bool)

-- A table is `none` where its module is disabled.
pub record Aggregator : Type 0 where
  pub cfg : Aggregation
  pub is_service : ServiceLookup
  pub exporters : Option (Table ExporterKey)
  pub hosts : Option (Table HostKey)
  pub services : Option (Table ServiceKey)
  pub destinations : Option (Table DestinationKey)
  pub tcp_flags : Option (Table TcpFlagsKey)
  pub dscp : Option (Table DscpKey)
  pub asns : Option (Table AsnKey)
  pub apps : Option (Table AppKey)
  pub countries : Option (Table CountryKey)
  pub threats : Option (Table ThreatKey)
  pub vlans : Option (Table VlanKey)

abbrev pub table_if : {K : Type 0} → Bool → ℕ → Option (Table K)
table_if enabled max = if enabled then some (new_table max) else none

-- `New`, the lookup already chosen by its options
unfoldable pub new_aggregator : Aggregation → Modules → ServiceLookup → Aggregator
new_aggregator cfg m is_service = record {
  cfg = cfg;
  is_service = is_service;
  exporters = table_if m.exporters cfg.max_entries;
  hosts = table_if m.hosts cfg.max_entries;
  services = table_if m.services cfg.max_entries;
  destinations = table_if m.destinations cfg.max_entries;
  tcp_flags = table_if m.tcp_flags cfg.max_entries;
  dscp = table_if m.dscp cfg.max_entries;
  asns = table_if m.asns cfg.max_entries;
  apps = table_if m.applications cfg.max_entries;
  countries = table_if m.countries cfg.max_entries;
  threats = table_if m.threats cfg.max_entries;
  vlans = table_if m.vlans cfg.max_entries;
}

-- `readingOf`
unfoldable pub reading_of : Record → Reading
reading_of r =
    let (bytes, packets) = corrected r in
    record {
      bytes = bytes;
      packets = packets;
      flows = r.flows;
      bytes_measured = r.bytes_reported;
      packets_measured = r.packets_reported;
    }

-- `servicePort`
unfoldable pub service_port : ServiceLookup → Record → ℕ × Endpoint
service_port none r = (r.dst_port, endpoint_dst)
service_port (some is_service) r =
    if is_service r.protocol r.dst_port
    then (r.dst_port, endpoint_dst)
    else if is_service r.protocol r.src_port
    then (r.src_port, endpoint_src)
    else (r.dst_port, endpoint_dst)

-- `formatAppID`: the engine and the selector in decimal, a colon between them
unfoldable pub format_app_id : ℕ → Text
format_app_id id =
    format_uint (id / 2 ^ app_selector_bits) ++ (b':' ∷ format_uint (id % 2 ^ app_selector_bits))

-- `applicationName`
unfoldable pub application_name : Record → Text
application_name r =
    if not (is_empty r.app_name)
    then r.app_name
    else if not (nat_eqb r.app_id 0)
    then format_app_id r.app_id
    else []

abbrev pub protocol_tcp : ℕ
protocol_tcp = 6

abbrev pub ecn_bits : ℕ
ecn_bits = 2

-- The key that a record has in each table, `none` where the guard before the table's `add` fails.
unfoldable pub exporter_key : Record → ExporterKey
exporter_key r = record {
  exporter = r.exporter;
  version = r.version;
  direction = r.direction;
  odid = r.odid;
}

abbrev pub key_if {ℓ} : {K : Type ℓ} → Bool → K → Option K
key_if guard k = if guard then some k else none

unfoldable pub host_key : Record → Option HostKey
host_key r = key_if (addr_is_valid r.src_addr && addr_is_valid r.dst_addr) (record {
  exporter = r.exporter;
  src = r.src_addr;
  dst = r.dst_addr;
  input_if = r.input_if;
  output_if = r.output_if;
  direction = r.direction;
})

unfoldable pub service_key : Record → ℕ → Endpoint → Option ServiceKey
service_key r port endpoint =
    key_if (addr_is_valid r.src_addr && addr_is_valid r.dst_addr && not (nat_eqb r.protocol 0))
      (record {
        exporter = r.exporter;
        src = r.src_addr;
        dst = r.dst_addr;
        protocol = r.protocol;
        direction = r.direction;
        endpoint = endpoint;
        port = port;
        input_if = r.input_if;
        output_if = r.output_if;
      })

unfoldable pub destination_key : Record → ℕ → Endpoint → Option DestinationKey
destination_key r port endpoint =
    key_if (addr_is_valid r.dst_addr && not (nat_eqb r.protocol 0)) (record {
      exporter = r.exporter;
      dst = r.dst_addr;
      protocol = r.protocol;
      direction = r.direction;
      endpoint = endpoint;
      port = port;
    })

unfoldable pub tcp_flags_key : Record → Option TcpFlagsKey
tcp_flags_key r =
    key_if (nat_eqb r.protocol protocol_tcp && r.tcp_flags_reported)
      (record { exporter = r.exporter; flags = r.tcp_flags; direction = r.direction })

unfoldable pub dscp_key : Record → Option DscpKey
dscp_key r =
    key_if r.tos_reported
      (record { exporter = r.exporter; dscp = r.tos / 2 ^ ecn_bits; direction = r.direction })

unfoldable pub asn_key : Record → Option AsnKey
asn_key r = key_if (not (nat_eqb r.src_as 0) || not (nat_eqb r.dst_as 0)) (record {
  exporter = r.exporter;
  src_as = r.src_as;
  dst_as = r.dst_as;
  direction = r.direction;
})

unfoldable pub app_key : Record → Option AppKey
app_key r =
    let name = application_name r in
    key_if (not (is_empty name))
      (record { exporter = r.exporter; name = name; direction = r.direction })

unfoldable pub country_key : Record → Option CountryKey
country_key r = key_if (not (is_empty r.src_country) || not (is_empty r.dst_country)) (record {
  exporter = r.exporter;
  src = r.src_country;
  dst = r.dst_country;
  direction = r.direction;
})

unfoldable pub vlan_key : Record → Option VlanKey
vlan_key r =
    key_if (not (nat_eqb r.src_vlan 0) || not (nat_eqb r.dst_vlan 0)) (record {
      exporter = r.exporter;
      src = r.src_vlan;
      dst = r.dst_vlan;
      direction = r.direction;
    })

-- The two keys of `ingestThreats`
unfoldable pub src_threat_key : Record → Option ThreatKey
src_threat_key r = key_if r.src_flagged (record {
  exporter = r.exporter;
  address = r.src_addr;
  endpoint = endpoint_src;
  input_if = r.input_if;
  output_if = r.output_if;
  direction = r.direction;
})

unfoldable pub dst_threat_key : Record → Option ThreatKey
dst_threat_key r = key_if r.dst_flagged (record {
  exporter = r.exporter;
  address = r.dst_addr;
  endpoint = endpoint_dst;
  input_if = r.input_if;
  output_if = r.output_if;
  direction = r.direction;
})

-- One guarded `add`: nothing for a disabled table or a record with no key.
unfoldable pub feed :
    {K : Type 0} ⦃e : Comparable K⦄ → Option (Table K) → Option K → Reading → ℕ → Option (Table K)
feed none key read now = none
feed (some t) none read now = some t
feed (some t) (some key) read now = some (add t key read now)

-- `ingestOne`, with `ingestThreats`
unfoldable pub ingest_one : Aggregator → Record → Reading → ℕ → Aggregator
ingest_one a r read now =
    let a' = record a { exporters = feed a.exporters (some (exporter_key r)) read now } in
    let (port, endpoint) = service_port a.is_service r in
    if aggregated r then a' else record a' {
      hosts = feed a.hosts (host_key r) read now;
      services = feed a.services (service_key r port endpoint) read now;
      destinations = feed a.destinations (destination_key r port endpoint) read now;
      tcp_flags = feed a.tcp_flags (tcp_flags_key r) read now;
      dscp = feed a.dscp (dscp_key r) read now;
      asns = feed a.asns (asn_key r) read now;
      apps = feed a.apps (app_key r) read now;
      countries = feed a.countries (country_key r) read now;
      vlans = feed a.vlans (vlan_key r) read now;
      threats = feed (feed a.threats (src_threat_key r) read now) (dst_threat_key r) read now;
    }

-- `Ingest`: every record of a batch is dated by one reading of the clock.
unfoldable pub ingest : Aggregator → List Record → ℕ → Aggregator
ingest a [] now = a
ingest a (r ∷ records) now = ingest (ingest_one a r (reading_of r) now) records now

abbrev pub sweep_table : {K : Type 0} → Option (Table K) → ℕ → Option (Table K)
sweep_table none cutoff = none
sweep_table (some t) cutoff = some (sweep t cutoff).0

-- `Aggregator.sweep`, over the enabled tables of `tables`
unfoldable pub sweep_all : Aggregator → ℕ → Aggregator
sweep_all a now =
    let cutoff = now - a.cfg.entry_ttl in
    record a {
      exporters = sweep_table a.exporters cutoff;
      hosts = sweep_table a.hosts cutoff;
      services = sweep_table a.services cutoff;
      destinations = sweep_table a.destinations cutoff;
      tcp_flags = sweep_table a.tcp_flags cutoff;
      dscp = sweep_table a.dscp cutoff;
      asns = sweep_table a.asns cutoff;
      apps = sweep_table a.apps cutoff;
      countries = sweep_table a.countries cutoff;
      threats = sweep_table a.threats cutoff;
      vlans = sweep_table a.vlans cutoff;
    }

pub record TableHealth : Type 0 where
  pub aggregation : String
  pub entries : ℕ
  pub idle_evictions : ℕ
  pub capacity_folds : ℕ

abbrev table_health : {K : Type 0} → String → Option (Table K) → List TableHealth
table_health name none = []
table_health name (some t) =
    record {
      aggregation = name;
      entries = size t;
      idle_evictions = (stats t).0;
      capacity_folds = (stats t).1;
    }
    ∷ []

-- `Health`: one reading for each enabled table
unfoldable pub health : Aggregator → List TableHealth
health a =
    table_health "exporters" a.exporters
    ++ (table_health "hosts" a.hosts
        ++ (table_health "services" a.services
            ++ (table_health "destinations" a.destinations
                ++ (table_health "tcp_flags" a.tcp_flags
                    ++ (table_health "dscp" a.dscp
                        ++ (table_health "asns" a.asns
                            ++ (table_health "applications" a.apps
                                ++ (table_health "countries" a.countries
                                    ++ (table_health "threats" a.threats
                                        ++ (table_health "vlans" a.vlans))))))))))

-- `Exporters`, `Hosts` and the nine other accessors: the snapshot, or nothing of a disabled table
unfoldable pub snapshot_of : {K : Type 0} → Option (Table K) → List (EntrySnapshot K) × Totals
snapshot_of none = ([], zero_totals)
snapshot_of (some t) = snapshot t
