-- ===== src/Decoder/Domain.antt =====
-- The state of one observation domain and of one device's sampler table, internal/decoder/templates.go.
-- Instants are UnixNano values from 0 on.
use xflow_exporter.Common.{
  ℕ, ◌≡◌, ◌↔◌, Bool, true, false, ◌&&◌, Option, none, List, [], Map, Comparable, ◌==◌, nat_eq,
  arith,
}
use xflow_exporter.Flow.{Addr, Version}
use xflow_exporter.Flow.Identity.{addr_eq, addr_eqb_iff, version_eq, version_eqb_iff}

abbrev pub max_templates_per_domain : ℕ
max_templates_per_domain = 8192

abbrev pub max_template_fields_per_exporter : ℕ
max_template_fields_per_exporter = 65536

abbrev pub max_samplers_per_domain : ℕ
max_samplers_per_domain = 4096

abbrev pub max_late_run : ℕ
max_late_run = 4

abbrev pub max_domains_per_exporter : ℕ
max_domains_per_exporter = 256

abbrev pub max_sessions_per_domain : ℕ
max_sessions_per_domain = 16

abbrev pub max_samplers_per_exporter : ℕ
max_samplers_per_exporter = 256

-- `unsampledSamplerID` of options.go
abbrev pub unsampled_sampler_id : ℕ
unsampled_sampler_id = 0

pub record TemplateField : Type 0 where
  pub field_type : ℕ
  pub length : ℕ
  pub enterprise : ℕ

pub record Template : Type 0 where
  pub fields : List TemplateField
  pub record_len : ℕ
  pub has_variable : Bool
  pub scope_count : ℕ
  pub options : Bool
  pub refreshed_at : ℕ
  pub noted : Bool

pub record DomainKey : Type 0 where
  pub exporter : Addr
  pub odid : ℕ
  pub proto : Version

pub record TemplateRef : Type 0 where
  pub port : ℕ
  pub id : ℕ

pub record SamplerKey : Type 0 where
  pub exporter : Addr
  pub proto : Version

pub record SamplerEntry : Type 0 where
  pub rate : ℕ
  pub last_seen : ℕ

pub record SamplerRef : Type 0 where
  pub odid : ℕ
  pub id : ℕ

pub data ScopeKind : Type 0 where
  scope_template scope_interface scope_domain : ScopeKind

pub record ScopedRef : Type 0 where
  pub kind : ScopeKind
  pub odid : ℕ
  pub port : ℕ
  pub value : ℕ

-- `samplerTable`. A Go map that was never made reads as an empty one.
pub record SamplerTable : Type 0 where
  pub named : Map SamplerRef SamplerEntry
  pub plain : Map ℕ SamplerEntry
  pub scoped : Map ScopedRef SamplerEntry
  pub has_scoped : Bool
  pub inherited : ℕ
  pub sampled : Bool
  pub declared_zero : Bool

abbrev pub empty_sampler_table : SamplerTable
empty_sampler_table = record {
  named = [];
  plain = [];
  scoped = [];
  has_scoped = false;
  inherited = 0;
  sampled = false;
  declared_zero = false;
}

-- `session`: one transport session's position in the domain's sequence
pub record Session : Type 0 where
  pub last_seq : ℕ
  pub last_seen : ℕ
  pub engine : ℕ
  pub late_run : ℕ
  pub init : Bool

pub record SamplerState : Type 0 where
  pub seq : ℕ
  pub rate : ℕ
  pub pool : ℕ
  pub drops : ℕ
  pub last_seen : ℕ

-- `domainState`. Its pointers to the device's budget and sampler table are the store's maps, looked
-- up by the domain's key; `recent` is the identifier and the state that `recentID` and `recentOne`
-- name, `none` where the pointer is nil.
pub record DomainState : Type 0 where
  pub templates : Map TemplateRef Template
  pub fields : ℕ
  pub templates_oldest : ℕ
  pub odid : ℕ
  pub last_seen : ℕ
  pub sessions : Map ℕ Session
  pub sequence_missed : ℕ
  pub sampling_rate : ℕ
  pub samplers : Map ℕ SamplerState
  pub recent : Option (ℕ × SamplerState)
  pub late_run : ℕ
  pub samplers_oldest : ℕ
  pub sampling_unresolved : ℕ
  pub sampler_rate_changes : ℕ
  pub sample_pool : ℕ
  pub samples_dropped : ℕ
  pub pool_measured : Bool
  pub drops_measured : Bool
  pub clock_inversions : ℕ
  pub clocks_anchored : Bool
  pub aggregate_zero_flows : ℕ
  pub aggregates_reported : Bool

-- `&domainState{…}` as `templateStore.domain` makes it
abbrev pub fresh_domain : ℕ → ℕ → DomainState
fresh_domain odid now = record {
  templates = [];
  fields = 0;
  templates_oldest = 0;
  odid = odid;
  last_seen = now;
  sessions = [];
  sequence_missed = 0;
  sampling_rate = 0;
  samplers = [];
  recent = none;
  late_run = 0;
  samplers_oldest = 0;
  sampling_unresolved = 0;
  sampler_rate_changes = 0;
  sample_pool = 0;
  samples_dropped = 0;
  pool_measured = false;
  drops_measured = false;
  clock_inversions = 0;
  clocks_anchored = false;
  aggregate_zero_flows = 0;
  aggregates_reported = false;
}

abbrev pub scope_kind_eqb : ScopeKind → ScopeKind → Bool
scope_kind_eqb scope_template scope_template = true
scope_kind_eqb scope_interface scope_interface = true
scope_kind_eqb scope_domain scope_domain = true
scope_kind_eqb _ _ = false

pub scope_kind_eqb_iff : (a b : ScopeKind) → (scope_kind_eqb a b ≡ true) ↔ (a ≡ b)
scope_kind_eqb_iff a b = ground arith

instance abbrev pub scope_kind_eq : Comparable ScopeKind
scope_kind_eq = record { equals = scope_kind_eqb; equals_iff = scope_kind_eqb_iff }

abbrev pub domain_key_eqb : DomainKey → DomainKey → Bool
domain_key_eqb a b = a.exporter == b.exporter && a.odid == b.odid && a.proto == b.proto

pub domain_key_eqb_iff : (a b : DomainKey) → (domain_key_eqb a b ≡ true) ↔ (a ≡ b)
domain_key_eqb_iff a b =
    ground (arith, addr_eqb_iff a.exporter b.exporter, version_eqb_iff a.proto b.proto)

instance abbrev pub domain_key_eq : Comparable DomainKey
domain_key_eq = record { equals = domain_key_eqb; equals_iff = domain_key_eqb_iff }

abbrev pub template_ref_eqb : TemplateRef → TemplateRef → Bool
template_ref_eqb a b = a.port == b.port && a.id == b.id

pub template_ref_eqb_iff : (a b : TemplateRef) → (template_ref_eqb a b ≡ true) ↔ (a ≡ b)
template_ref_eqb_iff a b = ground arith

instance abbrev pub template_ref_eq : Comparable TemplateRef
template_ref_eq = record { equals = template_ref_eqb; equals_iff = template_ref_eqb_iff }

abbrev pub sampler_key_eqb : SamplerKey → SamplerKey → Bool
sampler_key_eqb a b = a.exporter == b.exporter && a.proto == b.proto

pub sampler_key_eqb_iff : (a b : SamplerKey) → (sampler_key_eqb a b ≡ true) ↔ (a ≡ b)
sampler_key_eqb_iff a b =
    ground (arith, addr_eqb_iff a.exporter b.exporter, version_eqb_iff a.proto b.proto)

instance abbrev pub sampler_key_eq : Comparable SamplerKey
sampler_key_eq = record { equals = sampler_key_eqb; equals_iff = sampler_key_eqb_iff }

abbrev pub sampler_ref_eqb : SamplerRef → SamplerRef → Bool
sampler_ref_eqb a b = a.odid == b.odid && a.id == b.id

pub sampler_ref_eqb_iff : (a b : SamplerRef) → (sampler_ref_eqb a b ≡ true) ↔ (a ≡ b)
sampler_ref_eqb_iff a b = ground arith

instance abbrev pub sampler_ref_eq : Comparable SamplerRef
sampler_ref_eq = record { equals = sampler_ref_eqb; equals_iff = sampler_ref_eqb_iff }

abbrev pub scoped_ref_eqb : ScopedRef → ScopedRef → Bool
scoped_ref_eqb a b = a.kind == b.kind && a.odid == b.odid && a.port == b.port && a.value == b.value

pub scoped_ref_eqb_iff : (a b : ScopedRef) → (scoped_ref_eqb a b ≡ true) ↔ (a ≡ b)
scoped_ref_eqb_iff a b = ground (arith, scope_kind_eqb_iff a.kind b.kind)

instance abbrev pub scoped_ref_eq : Comparable ScopedRef
scoped_ref_eq = record { equals = scoped_ref_eqb; equals_iff = scoped_ref_eqb_iff }
