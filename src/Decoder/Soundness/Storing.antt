-- ===== src/Decoder/Soundness/Storing.antt =====
-- Each operation of the store of internal/decoder/templates.go keeps what the parsers rely on.
use xflow_exporter.Common.{
  ℕ, ◌≡◌, refl, sym, ◌-◌, Bool, true, some, leb, lookup, Map, is_some, lookup-insert, ◌==◌,
  Bool-cases, Option-cases, inl, inr, arith, [], ◌∷◌, length, ltb,
}
use xflow_exporter.Flow.{Time}
use xflow_exporter.Flow.Identity.{addr_eq}
use xflow_exporter.Decoder.Domain.{
  DomainState, DomainKey, SamplerKey, SamplerTable, Template, TemplateRef, domain_key_eq,
  sampler_key_eq, template_ref_eq, max_domains_per_exporter, empty_sampler_table, fresh_domain,
}
use xflow_exporter.Decoder.Templates.{
  Budget, drop_template, prune_loop, prune_expired, store_template, pruned_for, add_template, fits,
  find_template,
}
use xflow_exporter.Decoder.Templates.Layouts.{lookup-drop_template}
use xflow_exporter.Decoder.Stats.{max_exporters, unix_nano}
use xflow_exporter.Decoder.Store.{
  Store, table_key, domain, opened, with_table, store_add, withdraw, store_lookup, put_domain,
  fresh_budget,
}
use xflow_exporter.Decoder.Soundness.{
  is_walkable, is_sound, IsSoundDomain, IsSound, IsSoundStore, IsReady, IsSound-insert,
  IsSound-declare, present_insert, present_table, IsSound-lookup,
}

IsSoundDomain-drop :
    (d : DomainState) (b : Budget) (ref : TemplateRef)
    → IsSoundDomain d
    → IsSoundDomain (drop_template d b ref).0
IsSoundDomain-drop d b ref sound other = elim (Bool-cases (ref == other)) [
  | inl same ↦ rw (lookup-drop_template d b ref other, same) refl
  | inr apart ↦ rw (lookup-drop_template d b ref other, apart) (sound other)
]

IsSoundDomain-prune_loop :
    (now : Time) (ttl : ℕ) (m : Map TemplateRef Template) (d : DomainState) (b : Budget)
    (oldest : Time)
    → IsSoundDomain d
    → IsSoundDomain (prune_loop now ttl m d b oldest).0
unfolding prune_loop
IsSoundDomain-prune_loop now ttl [] d b oldest sound = sound
IsSoundDomain-prune_loop now ttl ((ref, t) ∷ rest) d b oldest sound =
    elim (Bool-cases (ltb ttl (now - t.refreshed_at))) [
      | inl expired ↦
          rw (prune_loop, expired)
            (IsSoundDomain-prune_loop now ttl rest _ _ oldest (IsSoundDomain-drop d b ref sound))
      | inr live ↦ rw (prune_loop, live) (IsSoundDomain-prune_loop now ttl rest d b _ sound)
    ]

IsSoundDomain-pruned_for :
    (d : DomainState) (b : Budget) (now : Time) (ttl : ℕ)
    → IsSoundDomain d
    → IsSoundDomain (pruned_for d b now ttl).0
unfolding pruned_for prune_expired
IsSoundDomain-pruned_for d b now ttl sound =
    elim (Bool-cases (ltb ttl (now - d.templates_oldest))) [
      | inl stale ↦ rw stale (IsSoundDomain-prune_loop now ttl d.templates d b now sound)
      | inr fresh ↦ rw fresh sound
    ]

IsSoundDomain-store :
    (d : DomainState) (b : Budget) (ref : TemplateRef) (t : Template)
    → is_walkable t ≡ true
    → IsSoundDomain d
    → IsSoundDomain (store_template d b ref t).0
unfolding store_template
IsSoundDomain-store d b ref t walkable sound other = elim (Bool-cases (ref == other)) [
  | inl same ↦ rw (lookup-insert ref other _ d.templates, same) walkable
  | inr apart ↦ rw (lookup-insert ref other _ d.templates, apart) (sound other)
]

IsSoundDomain-add_template :
    (d : DomainState) (b : Budget) (ref : TemplateRef) (t : Template) (now : Time) (ttl : ℕ)
    → is_walkable t ≡ true
    → IsSoundDomain d
    → IsSoundDomain (add_template d b ref t now ttl).0.0
unfolding add_template
IsSoundDomain-add_template d b ref t now ttl walkable sound =
    let u : Template = record t { refreshed_at = now } in
    let (d', b') = pruned_for d b now ttl in
    let pruned = IsSoundDomain-pruned_for d b now ttl sound in
    elim (Bool-cases (fits d b ref u)) [
      | inl room ↦ rw room (IsSoundDomain-store d b ref u walkable sound)
      | inr full ↦ elim (Bool-cases (fits d' b' ref u)) [
        | inl room ↦ rw (full, room) (IsSoundDomain-store d' b' ref u walkable pruned)
        | inr still ↦ rw (full, still) (IsSoundDomain-drop d' b' ref pruned)
      ]
    ]

IsSound-with_table :
    (key : SamplerKey) (domains : Map DomainKey DomainState) (tables : Map SamplerKey SamplerTable)
    → IsSound domains tables
    → IsSound domains (with_table key tables)
      × (is_some (lookup key (with_table key tables)) ≡ true)
IsSound-with_table key domains tables sound = elim (Bool-cases (is_some (lookup key tables))) [
  | inl held ↦ rw held (sound, held)
  | inr absent ↦ rw absent (
    IsSound-declare key empty_sampler_table domains tables sound,
    present_table key empty_sampler_table tables,
  )
]

IsReady-opened :
    (key : DomainKey) (at : Time) (budget : Budget) (s : Store)
    → IsSoundStore s
    → IsReady key (opened key at budget s)
unfolding opened lookup
IsReady-opened key at budget s sound =
    let (sound', table) = IsSound-with_table (table_key key) s.domains s.sampler_tables sound in
    (
      IsSound-insert key (fresh_domain key.odid (unix_nano at)) s.domains _ sound' (λ ref. refl)
          table,
      present_insert key _ s.domains,
    )

-- The domain is there, or it was refused.
abbrev pub IsGranted : DomainKey → Store × Bool → Type 0
IsGranted key (s, granted) = IsSoundStore s × (granted ≡ is_some (lookup key s.domains))

pub IsGranted-domain :
    (key : DomainKey) (at : Time) (s : Store) → IsSoundStore s → IsGranted key (domain key at s)
unfolding domain
IsGranted-domain key at s sound = elim (Option-cases (lookup key s.domains)) [
  | inr (d, held) ↦
      let (own, table) = IsSound-lookup key s d sound held in
      rw (domain, held)
        (
          IsSound-insert key (record d { last_seen = unix_nano at }) s.domains _ sound own table,
          sym (present_insert key _ s.domains),
        )
  | inl absent ↦ elim (Option-cases (lookup key.exporter s.per_exporter)) [
    | inr (budget, known) ↦ elim (Bool-cases (leb max_domains_per_exporter budget.domains)) [
      | inl full ↦ rw (domain, absent, known, full) (sound, rw (absent) refl)
      | inr room ↦
          let (sound', here) = IsReady-opened key at budget s sound in
          rw (domain, absent, known, room) (sound', sym here)
    ]
    | inl unknown ↦ elim (Bool-cases (leb max_exporters (length s.per_exporter))) [
      | inl full ↦ rw (domain, absent, unknown, full) (sound, rw (absent) refl)
      | inr room ↦
          let (sound', here) = IsReady-opened key at fresh_budget s sound in
          rw (domain, absent, unknown, room) (sound', sym here)
    ]
  ]
]

-- A change of the domain that is held, which leaves its templates sound, beside any change of the
-- device's budget.
IsReady-put :
    (key : DomainKey) (d d' : DomainState) (b : Budget) (s : Store)
    → IsSoundStore s
    → lookup key s.domains ≡ some d
    → IsSoundDomain d'
    → IsReady key (put_domain key (d', b) s)
IsReady-put key d d' b s sound held own = (
  IsSound-insert key d' s.domains s.sampler_tables sound own (IsSound-lookup key s d sound held).1,
  present_insert key d' s.domains,
)

pub IsReady-withdraw :
    (key : DomainKey) (ref : TemplateRef) (s : Store)
    → IsReady key s
    → IsReady key (withdraw key ref s)
unfolding withdraw
IsReady-withdraw key ref s (sound, present) = elim (Option-cases (lookup key s.domains)) [
  | inl absent ↦ rw (withdraw, absent) (sound, present)
  | inr (d, held) ↦ elim (Option-cases (lookup key.exporter s.per_exporter)) [
    | inl unknown ↦ rw (withdraw, held, unknown) (sound, present)
    | inr (b, known) ↦
        rw (withdraw, held, known)
          (IsReady-put key d (drop_template d b ref).0 (drop_template d b ref).1 s sound held
            (IsSoundDomain-drop d b ref (IsSound-lookup key s d sound held).0))
  ]
]

pub IsReady-domain :
    (key : DomainKey) (at : Time) (s : Store) → IsReady key s → IsReady key (domain key at s).0
IsReady-domain key at s (sound, present) = ((IsGranted-domain key at s sound).0, still present)
  where
    still :
        is_some (lookup key s.domains) ≡ true
        → is_some (lookup key (domain key at s).0.domains) ≡ true
    still present =
        unfold domain in
        elim (Option-cases (lookup key s.domains)) [
          | inl absent ↦ ground arith
          | inr (d, held) ↦ rw (domain, held) (present_insert key _ s.domains)
        ]

-- A domain that is there, as a value.
pub ready_domain :
    (key : DomainKey) (s : Store)
    → IsReady key s
    → (d : DomainState) × (lookup key s.domains ≡ some d)
      × IsSoundDomain d
      × (is_some (lookup (table_key key) s.sampler_tables) ≡ true)
ready_domain key s (sound, present) = elim (Option-cases (lookup key s.domains)) [
  | inl absent ↦ ground arith
  | inr (d, held) ↦ let (own, table) = IsSound-lookup key s d sound held in (d, held, own, table)
]

pub IsReady-store_add :
    (key : DomainKey) (ref : TemplateRef) (t : Template) (at : Time) (s : Store)
    → is_walkable t ≡ true
    → IsReady key s
    → IsReady key (store_add key ref t at s).0
unfolding store_add
IsReady-store_add key ref t at s walkable ready =
    let s' = (domain key at s).0 in
    let ready' = IsReady-domain key at s ready in
    let (d, held, own, table) = ready_domain key s' ready' in
    elim (Option-cases (lookup key.exporter s'.per_exporter)) [
      | inl unknown ↦ rw (store_add, held, unknown) ready'
      | inr (b, known) ↦
          let ((d', b'), stored) = add_template d b ref t at s'.ttl in
          rw (store_add, held, known)
            (IsReady-put key d d' b' s' ready'.0 held
              (IsSoundDomain-add_template d b ref t at s'.ttl walkable own))
    ]

-- What the lookup finds is sound, and the domain is there still.
pub IsReady-store_lookup :
    (key : DomainKey) (ref : TemplateRef) (at : Time) (s : Store)
    → IsReady key s
    → let (s', found) = store_lookup key ref at s in IsReady key s' × (is_sound found ≡ true)
unfolding store_lookup
IsReady-store_lookup key ref at s ready =
    let s' = (domain key at s).0 in
    let ready' = IsReady-domain key at s ready in
    let (d, held, own, table) = ready_domain key s' ready' in
    rw (store_lookup, held) (ready', sound_found d s'.ttl (own ref))
  where
    sound_found :
        (d : DomainState) (ttl : ℕ)
        → is_sound (lookup ref d.templates) ≡ true
        → is_sound (find_template d ref at ttl) ≡ true
    sound_found d ttl h = unfold find_template in ground (arith, h)
