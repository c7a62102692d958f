-- ===== src/Aggregator/Keys.antt =====
-- The table keys of internal/aggregator/aggregator.go, with Go's `==` on them.
use xflow_exporter.Common.{
  ℕ, ◌≡◌, ◌↔◌, Bool, true, false, ◌&&◌, Comparable, ◌==◌, nat_eq, list_eq, list_eqb_iff, arith,
}
use xflow_exporter.Common.Bytes.{Text}
use xflow_exporter.Flow.{Addr, Version, Direction}
use xflow_exporter.Flow.Identity.{
  addr_eq, addr_eqb_iff, version_eq, version_eqb_iff, direction_eq, direction_eqb_iff,
}

-- The end of a flow that a keyed value was taken from.
pub data Endpoint : Type 0 where
  endpoint_dst endpoint_src : Endpoint

abbrev pub endpoint_eqb : Endpoint → Endpoint → Bool
endpoint_eqb endpoint_dst endpoint_dst = true
endpoint_eqb endpoint_src endpoint_src = true
endpoint_eqb _ _ = false

pub endpoint_eqb_iff : (a b : Endpoint) → (endpoint_eqb a b ≡ true) ↔ (a ≡ b)
endpoint_eqb_iff a b = ground arith

instance abbrev pub endpoint_eq : Comparable Endpoint
endpoint_eq = record { equals = endpoint_eqb; equals_iff = endpoint_eqb_iff }

pub record ExporterKey : Type 0 where
  pub exporter : Addr
  pub version : Version
  pub direction : Direction
  pub odid : ℕ

abbrev pub exporter_key_eqb : ExporterKey → ExporterKey → Bool
exporter_key_eqb a b =
    a.exporter == b.exporter
    && a.version == b.version
    && a.direction == b.direction
    && a.odid == b.odid

pub exporter_key_eqb_iff : (a b : ExporterKey) → (exporter_key_eqb a b ≡ true) ↔ (a ≡ b)
exporter_key_eqb_iff a b = ground (
  arith,
  addr_eqb_iff a.exporter b.exporter,
  version_eqb_iff a.version b.version,
  direction_eqb_iff a.direction b.direction,
)

instance abbrev pub exporter_key_eq : Comparable ExporterKey
exporter_key_eq = record { equals = exporter_key_eqb; equals_iff = exporter_key_eqb_iff }

pub record HostKey : Type 0 where
  pub exporter : Addr
  pub src : Addr
  pub dst : Addr
  pub input_if : ℕ
  pub output_if : ℕ
  pub direction : Direction

abbrev pub host_key_eqb : HostKey → HostKey → Bool
host_key_eqb a b =
    a.exporter == b.exporter
    && a.src == b.src
    && a.dst == b.dst
    && a.input_if == b.input_if
    && a.output_if == b.output_if
    && a.direction == b.direction

pub host_key_eqb_iff : (a b : HostKey) → (host_key_eqb a b ≡ true) ↔ (a ≡ b)
host_key_eqb_iff a b = ground (
  arith,
  addr_eqb_iff a.exporter b.exporter,
  addr_eqb_iff a.src b.src,
  addr_eqb_iff a.dst b.dst,
  direction_eqb_iff a.direction b.direction,
)

instance abbrev pub host_key_eq : Comparable HostKey
host_key_eq = record { equals = host_key_eqb; equals_iff = host_key_eqb_iff }

pub record ServiceKey : Type 0 where
  pub exporter : Addr
  pub src : Addr
  pub dst : Addr
  pub protocol : ℕ
  pub direction : Direction
  pub endpoint : Endpoint
  pub port : ℕ
  pub input_if : ℕ
  pub output_if : ℕ

abbrev pub service_key_eqb : ServiceKey → ServiceKey → Bool
service_key_eqb a b =
    a.exporter == b.exporter
    && a.src == b.src
    && a.dst == b.dst
    && a.protocol == b.protocol
    && a.direction == b.direction
    && a.endpoint == b.endpoint
    && a.port == b.port
    && a.input_if == b.input_if
    && a.output_if == b.output_if

pub service_key_eqb_iff : (a b : ServiceKey) → (service_key_eqb a b ≡ true) ↔ (a ≡ b)
service_key_eqb_iff a b = ground (
  arith,
  addr_eqb_iff a.exporter b.exporter,
  addr_eqb_iff a.src b.src,
  addr_eqb_iff a.dst b.dst,
  direction_eqb_iff a.direction b.direction,
  endpoint_eqb_iff a.endpoint b.endpoint,
)

instance abbrev pub service_key_eq : Comparable ServiceKey
service_key_eq = record { equals = service_key_eqb; equals_iff = service_key_eqb_iff }

pub record TcpFlagsKey : Type 0 where
  pub exporter : Addr
  pub flags : ℕ
  pub direction : Direction

abbrev pub tcp_flags_key_eqb : TcpFlagsKey → TcpFlagsKey → Bool
tcp_flags_key_eqb a b = a.exporter == b.exporter && a.flags == b.flags && a.direction == b.direction

pub tcp_flags_key_eqb_iff : (a b : TcpFlagsKey) → (tcp_flags_key_eqb a b ≡ true) ↔ (a ≡ b)
tcp_flags_key_eqb_iff a b =
    ground (arith, addr_eqb_iff a.exporter b.exporter, direction_eqb_iff a.direction b.direction)

instance abbrev pub tcp_flags_key_eq : Comparable TcpFlagsKey
tcp_flags_key_eq = record { equals = tcp_flags_key_eqb; equals_iff = tcp_flags_key_eqb_iff }

pub record DscpKey : Type 0 where
  pub exporter : Addr
  pub dscp : ℕ
  pub direction : Direction

abbrev pub dscp_key_eqb : DscpKey → DscpKey → Bool
dscp_key_eqb a b = a.exporter == b.exporter && a.dscp == b.dscp && a.direction == b.direction

pub dscp_key_eqb_iff : (a b : DscpKey) → (dscp_key_eqb a b ≡ true) ↔ (a ≡ b)
dscp_key_eqb_iff a b =
    ground (arith, addr_eqb_iff a.exporter b.exporter, direction_eqb_iff a.direction b.direction)

instance abbrev pub dscp_key_eq : Comparable DscpKey
dscp_key_eq = record { equals = dscp_key_eqb; equals_iff = dscp_key_eqb_iff }

pub record DestinationKey : Type 0 where
  pub exporter : Addr
  pub dst : Addr
  pub protocol : ℕ
  pub direction : Direction
  pub endpoint : Endpoint
  pub port : ℕ

abbrev pub destination_key_eqb : DestinationKey → DestinationKey → Bool
destination_key_eqb a b =
    a.exporter == b.exporter
    && a.dst == b.dst
    && a.protocol == b.protocol
    && a.direction == b.direction
    && a.endpoint == b.endpoint
    && a.port == b.port

pub destination_key_eqb_iff : (a b : DestinationKey) → (destination_key_eqb a b ≡ true) ↔ (a ≡ b)
destination_key_eqb_iff a b = ground (
  arith,
  addr_eqb_iff a.exporter b.exporter,
  addr_eqb_iff a.dst b.dst,
  direction_eqb_iff a.direction b.direction,
  endpoint_eqb_iff a.endpoint b.endpoint,
)

instance abbrev pub destination_key_eq : Comparable DestinationKey
destination_key_eq = record { equals = destination_key_eqb; equals_iff = destination_key_eqb_iff }

pub record AsnKey : Type 0 where
  pub exporter : Addr
  pub src_as : ℕ
  pub dst_as : ℕ
  pub direction : Direction

abbrev pub asn_key_eqb : AsnKey → AsnKey → Bool
asn_key_eqb a b =
    a.exporter == b.exporter
    && a.src_as == b.src_as
    && a.dst_as == b.dst_as
    && a.direction == b.direction

pub asn_key_eqb_iff : (a b : AsnKey) → (asn_key_eqb a b ≡ true) ↔ (a ≡ b)
asn_key_eqb_iff a b =
    ground (arith, addr_eqb_iff a.exporter b.exporter, direction_eqb_iff a.direction b.direction)

instance abbrev pub asn_key_eq : Comparable AsnKey
asn_key_eq = record { equals = asn_key_eqb; equals_iff = asn_key_eqb_iff }

pub record CountryKey : Type 0 where
  pub exporter : Addr
  pub src : Text
  pub dst : Text
  pub direction : Direction

abbrev pub country_key_eqb : CountryKey → CountryKey → Bool
country_key_eqb a b =
    a.exporter == b.exporter && a.src == b.src && a.dst == b.dst && a.direction == b.direction

pub country_key_eqb_iff : (a b : CountryKey) → (country_key_eqb a b ≡ true) ↔ (a ≡ b)
country_key_eqb_iff a b = ground (
  arith,
  addr_eqb_iff a.exporter b.exporter,
  list_eqb_iff a.src b.src,
  list_eqb_iff a.dst b.dst,
  direction_eqb_iff a.direction b.direction,
)

instance abbrev pub country_key_eq : Comparable CountryKey
country_key_eq = record { equals = country_key_eqb; equals_iff = country_key_eqb_iff }

pub record ThreatKey : Type 0 where
  pub exporter : Addr
  pub address : Addr
  pub endpoint : Endpoint
  pub input_if : ℕ
  pub output_if : ℕ
  pub direction : Direction

abbrev pub threat_key_eqb : ThreatKey → ThreatKey → Bool
threat_key_eqb a b =
    a.exporter == b.exporter
    && a.address == b.address
    && a.endpoint == b.endpoint
    && a.input_if == b.input_if
    && a.output_if == b.output_if
    && a.direction == b.direction

pub threat_key_eqb_iff : (a b : ThreatKey) → (threat_key_eqb a b ≡ true) ↔ (a ≡ b)
threat_key_eqb_iff a b = ground (
  arith,
  addr_eqb_iff a.exporter b.exporter,
  addr_eqb_iff a.address b.address,
  endpoint_eqb_iff a.endpoint b.endpoint,
  direction_eqb_iff a.direction b.direction,
)

instance abbrev pub threat_key_eq : Comparable ThreatKey
threat_key_eq = record { equals = threat_key_eqb; equals_iff = threat_key_eqb_iff }

pub record VlanKey : Type 0 where
  pub exporter : Addr
  pub src : ℕ
  pub dst : ℕ
  pub direction : Direction

abbrev pub vlan_key_eqb : VlanKey → VlanKey → Bool
vlan_key_eqb a b =
    a.exporter == b.exporter && a.src == b.src && a.dst == b.dst && a.direction == b.direction

pub vlan_key_eqb_iff : (a b : VlanKey) → (vlan_key_eqb a b ≡ true) ↔ (a ≡ b)
vlan_key_eqb_iff a b =
    ground (arith, addr_eqb_iff a.exporter b.exporter, direction_eqb_iff a.direction b.direction)

instance abbrev pub vlan_key_eq : Comparable VlanKey
vlan_key_eq = record { equals = vlan_key_eqb; equals_iff = vlan_key_eqb_iff }

pub record AppKey : Type 0 where
  pub exporter : Addr
  pub name : Text
  pub direction : Direction

abbrev pub app_key_eqb : AppKey → AppKey → Bool
app_key_eqb a b = a.exporter == b.exporter && a.name == b.name && a.direction == b.direction

pub app_key_eqb_iff : (a b : AppKey) → (app_key_eqb a b ≡ true) ↔ (a ≡ b)
app_key_eqb_iff a b = ground (
  arith,
  addr_eqb_iff a.exporter b.exporter,
  list_eqb_iff a.name b.name,
  direction_eqb_iff a.direction b.direction,
)

instance abbrev pub app_key_eq : Comparable AppKey
app_key_eq = record { equals = app_key_eqb; equals_iff = app_key_eqb_iff }
