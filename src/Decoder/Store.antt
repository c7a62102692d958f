-- ===== src/Decoder/Store.antt =====
-- The template store, internal/decoder/templates.go: the observation domains of every device, the
-- devices' budgets and their tables of sampling declarations. A domain's pointers to its device's
-- budget and table are their keys in the store's maps. `at` is what the store's clock reads.
pub mod Accounts
pub mod Charging
pub mod Evicting
pub mod Runs
use xflow_exporter.Common.{
  ℕ, ◌+◌, ◌-◌, Bool, true, false, not, ◌&&◌, Option, none, some, List, [], ◌∷◌, Map, lookup, insert,
  erase, map_values, keep_keys, keys, length, if◌then◌else◌, ltb, leb, nat_eqb, is_some, add64,
  ◌==◌,
}
use xflow_exporter.Flow.{Addr, Time}
use xflow_exporter.Flow.Identity.{addr_eq}
use xflow_exporter.Decoder.Domain.{
  DomainState, DomainKey, SamplerKey, SamplerTable, ScopedRef, Session, Template, TemplateRef,
  domain_key_eq, sampler_key_eq, fresh_domain, empty_sampler_table, max_domains_per_exporter,
}
use xflow_exporter.Decoder.Declarations.{Verdict, declare, declare_scoped, expire, plain_rate}
use xflow_exporter.Decoder.Templates.{
  Budget, add_template, drop_template, find_template, prune_expired,
}
use xflow_exporter.Decoder.Stats.{max_exporters, unix_nano}

-- `templateStore`. Its time to live is in nanoseconds, as a `time.Duration` is.
pub record Store : Type 0 where
  pub domains : Map DomainKey DomainState
  pub sampler_tables : Map SamplerKey SamplerTable
  pub per_exporter : Map Addr Budget
  pub domains_refused : ℕ
  pub samplers_refused : ℕ
  pub declarations_refused : ℕ
  pub max_fields : ℕ
  pub ttl : ℕ

-- `newTemplateStore`
abbrev pub new_store : ℕ → ℕ → Store
new_store max_fields ttl = record {
  domains = [];
  sampler_tables = [];
  per_exporter = [];
  domains_refused = 0;
  samplers_refused = 0;
  declarations_refused = 0;
  max_fields = max_fields;
  ttl = ttl;
}

abbrev pub table_key : DomainKey → SamplerKey
table_key key = record { exporter = key.exporter; proto = key.proto }

abbrev pub fresh_budget : Budget
fresh_budget = record { domains = 0; fields = 0 }

abbrev pub with_table : SamplerKey → Map SamplerKey SamplerTable → Map SamplerKey SamplerTable
with_table key tables =
    if is_some (lookup key tables) then tables else insert key empty_sampler_table tables

-- The end of `domain`: a domain opened against its device's budget.
unfoldable pub opened : DomainKey → Time → Budget → Store → Store
opened key at budget s = record s {
  sampler_tables = with_table (table_key key) s.sampler_tables;
  per_exporter =
      insert key.exporter (record budget { domains = budget.domains + 1 }) s.per_exporter;
  domains = insert key (fresh_domain key.odid (unix_nano at)) s.domains;
}

abbrev pub refuse_domain : Store → Store
refuse_domain s = record s { domains_refused = add64 s.domains_refused 1 }

-- `domain`: whether there is one; `false` is the nil it returns.
unfoldable pub domain : DomainKey → Time → Store → Store × Bool
unfolding opened
domain key at s = elim (lookup key s.domains) [
  | some d ↦
      (record s { domains = insert key (record d { last_seen = unix_nano at }) s.domains }, true)
  | none ↦ elim (lookup key.exporter s.per_exporter) [
    | some budget ↦
        if leb max_domains_per_exporter budget.domains
        then (refuse_domain s, false)
        else (opened key at budget s, true)
    | none ↦
        if leb max_exporters (length s.per_exporter)
        then (refuse_domain s, false)
        else (opened key at fresh_budget s, true)
  ]
]

-- A domain and its device's budget written back.
abbrev pub put_domain : DomainKey → DomainState × Budget → Store → Store
put_domain key (d, b) s = record s {
  domains = insert key d s.domains;
  per_exporter = insert key.exporter b s.per_exporter;
}

-- The eviction of one domain: its fields and its slot go back, and with the last slot the budget.
unfoldable pub evict : DomainKey → DomainState → Store → Store
evict key d s = elim (lookup key.exporter s.per_exporter) [
  | none ↦ record s { domains = erase key s.domains }
  | some b ↦ record s {
    domains = erase key s.domains;
    per_exporter =
        if leb (b.domains - 1) 0
        then erase key.exporter s.per_exporter
        else insert key.exporter (record { domains = b.domains - 1; fields = b.fields - d.fields })
            s.per_exporter;
  }
]

-- One round of the loop of `evictIdleDomains`
unfoldable pub evict_if_idle : ℕ → DomainKey → Store → Store
evict_if_idle cutoff key s = elim (lookup key s.domains) [
  | none ↦ s
  | some d ↦ if leb cutoff d.last_seen then s else evict key d s
]

unfoldable pub evict_loop : ℕ → List DomainKey → Store → Store
evict_loop cutoff [] s = s
evict_loop cutoff (key ∷ rest) s = evict_loop cutoff rest (evict_if_idle cutoff key s)

abbrev pub occurs_key : SamplerKey → List DomainKey → Bool
occurs_key key [] = false
occurs_key key (k ∷ rest) = if table_key k == key then true else occurs_key key rest

-- What a domain declared for itself, after its device's table expired.
abbrev pub restated : Map SamplerKey SamplerTable → DomainKey → DomainState → DomainState
restated tables key d = elim (lookup (table_key key) tables) [
  | none ↦ d
  | some table ↦ record d { sampling_rate = plain_rate table key.odid }
]

-- `sweepSamplerTablesLocked`
unfoldable pub sweep_sampler_tables : ℕ → Store → Store
sweep_sampler_tables cutoff s =
    let expired = map_values (λ key table. expire table cutoff) s.sampler_tables in
    record s {
      domains = map_values (restated expired) s.domains;
      sampler_tables = keep_keys (λ key. occurs_key key (keys s.domains)) expired;
    }

-- `evictIdleDomains`
unfoldable pub evict_idle_domains : ℕ → Store → Store
evict_idle_domains cutoff s = sweep_sampler_tables cutoff (evict_loop cutoff (keys s.domains) s)

-- The sessions that a datagram arrived on at the cutoff or later.
unfoldable pub sessions_since : ℕ → Map ℕ Session → Map ℕ Session
sessions_since cutoff [] = []
sessions_since cutoff ((port, session) ∷ rest) =
    let kept = sessions_since cutoff rest in
    if ltb session.last_seen cutoff then kept else (port, session) ∷ kept

-- `pruneIdleSessionsLocked`
unfoldable pub prune_idle_sessions : ℕ → DomainState → DomainState
unfolding sessions_since
prune_idle_sessions cutoff d = record d { sessions = sessions_since cutoff d.sessions }

-- One round of the loop of `sweepDomains`
unfoldable pub tidy : ℕ → Time → DomainKey → Store → Store
tidy cutoff at key s = elim (lookup key s.domains) [
  | none ↦ s
  | some d ↦ elim (lookup key.exporter s.per_exporter) [
    | none ↦ s
    | some b ↦ put_domain key (prune_expired (prune_idle_sessions cutoff d) b at s.ttl) s
  ]
]

unfoldable pub tidy_loop : ℕ → Time → List DomainKey → Store → Store
tidy_loop cutoff at [] s = s
tidy_loop cutoff at (key ∷ rest) s = tidy_loop cutoff at rest (tidy cutoff at key s)

-- `sweepDomains`, and how many domains it evicted
unfoldable pub sweep_domains : ℕ → Time → Store → Store × ℕ
sweep_domains cutoff at s =
    let s' = evict_idle_domains cutoff s in
    (tidy_loop cutoff at (keys s'.domains) s', length s.domains - length s'.domains)

-- `templateStore.add`
unfoldable pub store_add : DomainKey → TemplateRef → Template → Time → Store → Store × Bool
store_add key ref t at s =
    let (s', held) = domain key at s in
    elim (lookup key s'.domains) [
      | none ↦ (s', false)
      | some d ↦ elim (lookup key.exporter s'.per_exporter) [
        | none ↦ (s', false)
        | some b ↦
            let ((d', b'), stored) = add_template d b ref t at s'.ttl in
            (put_domain key (d', b') s', stored)
      ]
    ]

-- `withdraw`
unfoldable pub withdraw : DomainKey → TemplateRef → Store → Store
withdraw key ref s = elim (lookup key s.domains) [
  | none ↦ s
  | some d ↦ elim (lookup key.exporter s.per_exporter) [
    | none ↦ s
    | some b ↦ put_domain key (drop_template d b ref) s
  ]
]

-- `templateStore.lookup`
unfoldable pub store_lookup : DomainKey → TemplateRef → Time → Store → Store × Option Template
store_lookup key ref at s =
    let (s', held) = domain key at s in
    elim (lookup key s'.domains) [
      | none ↦ (s', none)
      | some d ↦ (s', find_template d ref at s'.ttl)
    ]

abbrev pub counted_if : Bool → ℕ → ℕ
counted_if happened n = if happened then add64 n 1 else n

-- The table and the verdict of a declaration written back, a refusal and a changed rate counted.
unfoldable pub settle : DomainKey → DomainState → SamplerTable × Verdict → Store → Store
settle key d (t, verdict) s = record s {
  sampler_tables = insert (table_key key) t s.sampler_tables;
  declarations_refused = counted_if (not verdict.taken) s.declarations_refused;
  domains =
      insert key
        (record d { sampler_rate_changes = counted_if verdict.changed d.sampler_rate_changes })
        s.domains;
}

-- `declareSampler`
unfoldable pub store_declare : DomainKey → ℕ → ℕ → Bool → ℕ → Store → Store
unfolding settle
store_declare key odid id named rate s = elim (lookup key s.domains) [
  | none ↦ s
  | some d ↦ elim (lookup (table_key key) s.sampler_tables) [
    | none ↦ s
    | some t ↦ settle key d (declare t odid id named rate d.last_seen) s
  ]
]

-- `templateStore.declareScoped`
unfoldable pub store_declare_scoped : DomainKey → ScopedRef → ℕ → Store → Store
unfolding settle
store_declare_scoped key ref rate s = elim (lookup key s.domains) [
  | none ↦ s
  | some d ↦ elim (lookup (table_key key) s.sampler_tables) [
    | none ↦ s
    | some t ↦ settle key d (declare_scoped t ref rate d.last_seen) s
  ]
]
