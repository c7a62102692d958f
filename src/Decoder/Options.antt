-- ===== src/Decoder/Options.antt =====
-- internal/decoder/options.go: the options records that declare sampling rates and application names.
-- A value that the source keeps beside a flag of its own is an option here.
use xflow_exporter.Common.{
  ℕ, ◌/◌, Bool, true, false, not, ◌&&◌, Option, none, some, List, [], if◌then◌else◌, ltb, nat_eqb,
  length, lookup, insert, add32,
}
use xflow_exporter.Common.Bytes.{Text}
use xflow_exporter.Flow.{Addr, Time}
use xflow_exporter.Decoder.Domain.{
  DomainKey, scope_template, scope_interface, scope_domain, domain_key_eq,
}
use xflow_exporter.Decoder.Store.{Store, store_declare, store_declare_scoped}
use xflow_exporter.Decoder.Apps.{AppTables, set_name, set_category}
use xflow_exporter.Decoder.Stats.{unix_nano}
use xflow_exporter.Decoder.Elements.{be_uint16, be_uint32, application_id}
use xflow_exporter.Decoder.Fields.{or_zero}
use xflow_exporter.Decoder.State.{DecoderState}

-- `ciscoPEN`
abbrev pub cisco_pen : ℕ
cisco_pen = 9

-- `optionsState`
pub record OptionsState : Type 0 where
  pub sampler : Option ℕ
  pub selector : Option ℕ
  pub plain_interval : ℕ
  pub random_interval : ℕ
  pub packet_interval : ℕ
  pub packet_space : ℕ
  pub has_space : Bool
  pub sampling_size : ℕ
  pub population : ℕ
  pub app_id : ℕ
  pub app_name : Text
  pub app_category : Text
  pub template_scope : Option ℕ
  pub interface_scope : Option ℕ
  pub domain_scope : Option ℕ

-- `var opts optionsState`
abbrev pub no_options : OptionsState
no_options = record {
  sampler = none;
  selector = none;
  plain_interval = 0;
  random_interval = 0;
  packet_interval = 0;
  packet_space = 0;
  has_space = false;
  sampling_size = 0;
  population = 0;
  app_id = 0;
  app_name = [];
  app_category = [];
  template_scope = none;
  interface_scope = none;
  domain_scope = none;
}

-- The `switch` of `apply`
unfoldable pub apply_iana : OptionsState → ℕ → List ℕ → OptionsState × Bool
apply_iana o field_type value =
    if nat_eqb field_type 48
    then (record o { sampler = be_uint32 value }, true)
    else if nat_eqb field_type 302
    then (record o { selector = be_uint32 value }, true)
    else if nat_eqb field_type 34
    then (record o { plain_interval = or_zero (be_uint32 value) }, true)
    else if nat_eqb field_type 50
    then (record o { random_interval = or_zero (be_uint32 value) }, true)
    else if nat_eqb field_type 305
    then (record o { packet_interval = or_zero (be_uint32 value) }, true)
    else if nat_eqb field_type 306
    then (record o { packet_space = or_zero (be_uint32 value); has_space = true }, true)
    else if nat_eqb field_type 309
    then (record o { sampling_size = or_zero (be_uint32 value) }, true)
    else if nat_eqb field_type 310
    then (record o { population = or_zero (be_uint32 value) }, true)
    else if nat_eqb field_type 95
    then (record o { app_id = or_zero (application_id value) }, true)
    else if nat_eqb field_type 96
    then (record o { app_name = value }, true)
    else (o, false)

-- `apply`
unfoldable pub apply_option : OptionsState → ℕ → ℕ → List ℕ → OptionsState × Bool
apply_option o field_type enterprise value =
    if nat_eqb enterprise cisco_pen && nat_eqb field_type 12232
    then (record o { app_category = value }, true)
    else if not (nat_eqb enterprise 0)
    then (o, false)
    else apply_iana o field_type value

-- `applyV9Scope`
unfoldable pub apply_v9_scope : OptionsState → ℕ → List ℕ → OptionsState
apply_v9_scope o scope_type value =
    if nat_eqb scope_type 5
    then record o { template_scope = be_uint16 value }
    else if nat_eqb scope_type 2
    then record o { interface_scope = be_uint32 value }
    else o

-- `applyIPFIXScope`
unfoldable pub apply_ipfix_scope : OptionsState → ℕ → ℕ → List ℕ → OptionsState × Bool
apply_ipfix_scope o field_type enterprise value =
    if not (nat_eqb enterprise 0)
    then (o, false)
    else if nat_eqb field_type 145
    then (record o { template_scope = be_uint16 value }, true)
    else if nat_eqb field_type 10
    then (record o { interface_scope = be_uint32 value }, true)
    else if nat_eqb field_type 149
    then (record o { domain_scope = be_uint32 value }, true)
    else (o, false)

-- `declaredID`; `none` is its `false`.
unfoldable pub declared_id : OptionsState → Option ℕ
declared_id o = elim o.sampler [ some id ↦ some id | none ↦ o.selector ]

-- `samplingRate`; the sum is on uint32.
unfoldable pub sampling_rate : OptionsState → ℕ
sampling_rate o =
    if o.has_space && ltb 0 o.packet_interval
    then add32 o.packet_interval o.packet_space / o.packet_interval
    else if ltb 0 o.sampling_size && ltb 0 o.population
    then o.population / o.sampling_size
    else if ltb 0 o.random_interval
    then o.random_interval
    else o.plain_interval

-- `domain.samplingRate.Store(rate)`
unfoldable pub set_domain_rate : DomainKey → ℕ → Store → Store
set_domain_rate key rate s = elim (lookup key s.domains) [
  | none ↦ s
  | some d ↦ record s { domains = insert key (record d { sampling_rate = rate }) s.domains }
]

-- The declaration of a record that names no sampler: onto its template, its interface, another domain,
-- or its own domain.
unfoldable pub declare_unnamed : OptionsState → DomainKey → ℕ → ℕ → Store → Store
declare_unnamed o key port rate s =
    let own = store_declare key key.odid 0 false rate (set_domain_rate key rate s) in
    elim o.template_scope [
      | some id ↦
          store_declare_scoped key
            (record { kind = scope_template; odid = key.odid; port = port; value = id }) rate s
      | none ↦ elim o.interface_scope [
        | some input_if ↦
            store_declare_scoped key
              (record { kind = scope_interface; odid = key.odid; port = 0; value = input_if }) rate
              s
        | none ↦ elim o.domain_scope [
          | none ↦ own
          | some odid ↦
              if nat_eqb odid key.odid
              then own
              else store_declare_scoped key
                  (record { kind = scope_domain; odid = 0; port = 0; value = odid }) rate s
        ]
      ]
    ]

-- The rate's half of `commit`.
unfoldable pub commit_rate : OptionsState → DomainKey → ℕ → Store → Store
commit_rate o key port s =
    let rate = sampling_rate o in
    if nat_eqb rate 0 then s else (elim (declared_id o) [
      | some id ↦ store_declare key key.odid id true rate s
      | none ↦ declare_unnamed o key port rate s
    ])

-- The names' half of `commit`.
unfoldable pub commit_apps : OptionsState → Addr → Time → AppTables → AppTables
commit_apps o exporter at a =
    if nat_eqb o.app_id 0
    then a
    else let named =
        if ltb 0 (length o.app_name)
        then set_name exporter o.app_id o.app_name (unix_nano at) a
        else a in
      if ltb 0 (length o.app_category)
      then set_category exporter o.app_id o.app_category (unix_nano at) named
      else named

-- `commit`
unfoldable pub commit : OptionsState → DomainKey → ℕ → Time → DecoderState → DecoderState
commit o key port at s = record s {
  templates = commit_rate o key port s.templates;
  apps = commit_apps o key.exporter at s.apps;
}
