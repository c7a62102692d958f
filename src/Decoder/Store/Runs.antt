-- ===== src/Decoder/Store/Runs.antt =====
-- The store's accounts over any run of its operations, internal/decoder/templates.go.
use xflow_exporter.Common.{
  ℕ, ◌≡◌, Bool, some, List, [], ◌∷◌, refl, arith, lookup, Option-cases, inl, inr, tally-insert,
  Distinct-insert, keys,
}
use xflow_exporter.Flow.{Time}
use xflow_exporter.Flow.Identity.{addr_eq}
use xflow_exporter.Decoder.Domain.{
  DomainState, DomainKey, Template, TemplateRef, SamplerTable, ScopedRef, domain_key_eq,
  template_ref_eq, sampler_key_eq,
}
use xflow_exporter.Decoder.Templates.{add_template, drop_template, prune_expired}
use xflow_exporter.Decoder.Templates.Charge.{
  IsCharged, add_template-IsCharged, drop_template-IsCharged, prune_expired-IsCharged,
}
use xflow_exporter.Decoder.Declarations.{Verdict}
use xflow_exporter.Decoder.Store.{
  Store, domain, prune_idle_sessions, tidy, tidy_loop, sweep_domains, evict_idle_domains, store_add,
  withdraw, new_store, settle, store_declare, store_declare_scoped, counted_if, table_key,
}
use xflow_exporter.Decoder.Store.Accounts.{
  IsAccounted, slot_of, charge_of, domain-IsAccounted, insert-IsCounted,
}
use xflow_exporter.Decoder.Store.Evicting.{evict_idle_domains-IsAccounted}
use xflow_exporter.Decoder.Store.Charging.{
  others_of, domain-IsCharged, put_charged, slots-drop_template, slots-prune_loop,
  slots-add_template,
}

tidy-IsAccounted :
    (cutoff : ℕ) (at : Time) (key : DomainKey) (s : Store)
    → IsAccounted s
    → IsAccounted (tidy cutoff at key s)
unfolding tidy prune_idle_sessions
tidy-IsAccounted cutoff at key s h = elim (Option-cases (lookup key s.domains)) [
  | inl absent ↦ rw (tidy, absent) h
  | inr (d, held) ↦ elim (Option-cases (lookup key.exporter s.per_exporter)) [
    | inl none_held ↦ rw (tidy, held, none_held) h
    | inr (b, budget) ↦
        let c = domain-IsCharged s key d b h held budget in
        let d' = prune_idle_sessions cutoff d in
        let c' : IsCharged (others_of key s) d' b = record {
          distinct = c.distinct;
          counted = c.counted;
          charged = c.charged;
          few = c.few;
          within = c.within;
        } in
        rw (tidy, held, budget)
          (put_charged s key d b (prune_expired d' b at s.ttl) h held budget
            (prune_expired-IsCharged (others_of key s) d' b at s.ttl c')
            (unfold prune_expired in slots-prune_loop at s.ttl d'.templates d' b at))
  ]
]

tidy_loop-IsAccounted :
    (cutoff : ℕ) (at : Time) (ks : List DomainKey) (s : Store)
    → IsAccounted s
    → IsAccounted (tidy_loop cutoff at ks s)
unfolding tidy_loop
tidy_loop-IsAccounted cutoff at [] s h = h
tidy_loop-IsAccounted cutoff at (key ∷ ks) s h =
    tidy_loop-IsAccounted cutoff at ks (tidy cutoff at key s) (tidy-IsAccounted cutoff at key s h)

store_add-IsAccounted :
    (key : DomainKey) (ref : TemplateRef) (t : Template) (at : Time) (s : Store)
    → IsAccounted s
    → IsAccounted (store_add key ref t at s).0
unfolding store_add
store_add-IsAccounted key ref t at s h0 =
    let s' = (domain key at s).0 in
    let h = domain-IsAccounted key at s h0 in
    elim (Option-cases (lookup key s'.domains)) [
      | inl absent ↦ rw (store_add, absent) h
      | inr (d, held) ↦ elim (Option-cases (lookup key.exporter s'.per_exporter)) [
        | inl none_held ↦ rw (store_add, held, none_held) h
        | inr (b, budget) ↦
            rw (store_add, held, budget)
              (put_charged s' key d b (add_template d b ref t at s'.ttl).0 h held budget
                (add_template-IsCharged (others_of key s') d b ref t at s'.ttl
                  (domain-IsCharged s' key d b h held budget))
                (slots-add_template d b ref t at s'.ttl))
      ]
    ]

withdraw-IsAccounted :
    (key : DomainKey) (ref : TemplateRef) (s : Store)
    → IsAccounted s
    → IsAccounted (withdraw key ref s)
unfolding withdraw
withdraw-IsAccounted key ref s h = elim (Option-cases (lookup key s.domains)) [
  | inl absent ↦ rw (withdraw, absent) h
  | inr (d, held) ↦ elim (Option-cases (lookup key.exporter s.per_exporter)) [
    | inl none_held ↦ rw (withdraw, held, none_held) h
    | inr (b, budget) ↦
        rw (withdraw, held, budget)
          (put_charged s key d b (drop_template d b ref) h held budget
            (drop_template-IsCharged (others_of key s) d b ref
              (domain-IsCharged s key d b h held budget))
            (slots-drop_template d b ref))
  ]
]

settle-IsAccounted :
    (s : Store) (key : DomainKey) (d : DomainState) (p : SamplerTable × Verdict)
    → IsAccounted s
    → lookup key s.domains ≡ some d
    → IsAccounted (settle key d p s)
unfolding settle
settle-IsAccounted s key d (t, verdict) h held =
    let d' : DomainState = record d {
      sampler_rate_changes = counted_if verdict.changed d.sampler_rate_changes;
    } in
    let c = h.counted key d held in
    record {
      keyed = Distinct-insert key d' s.domains h.keyed;
      devices = h.devices;
      slotted = λ a. ground (arith, h.slotted a, tally-insert (slot_of a) key d' s.domains);
      charged = λ a. ground (arith, h.charged a, tally-insert (charge_of a) key d' s.domains);
      few = λ a. ground (arith, h.few a, tally-insert (slot_of a) key d' s.domains);
      within = λ a. ground (arith, h.within a, tally-insert (charge_of a) key d' s.domains);
      fleet = h.fleet;
      counted =
          insert-IsCounted s key d' h
            (record { distinct = c.distinct; counted = c.counted; few = c.few });
    }

store_declare-IsAccounted :
    (key : DomainKey) (odid id : ℕ) (named : Bool) (rate : ℕ) (s : Store)
    → IsAccounted s
    → IsAccounted (store_declare key odid id named rate s)
unfolding store_declare
store_declare-IsAccounted key odid id named rate s h = elim (Option-cases (lookup key s.domains)) [
  | inl absent ↦ rw (store_declare, absent) h
  | inr (d, held) ↦ elim (Option-cases (lookup (table_key key) s.sampler_tables)) [
    | inl new ↦ rw (store_declare, held, new) h
    | inr (t, table) ↦ rw (store_declare, held, table) (settle-IsAccounted s key d _ h held)
  ]
]

store_declare_scoped-IsAccounted :
    (key : DomainKey) (ref : ScopedRef) (rate : ℕ) (s : Store)
    → IsAccounted s
    → IsAccounted (store_declare_scoped key ref rate s)
unfolding store_declare_scoped
store_declare_scoped-IsAccounted key ref rate s h = elim (Option-cases (lookup key s.domains)) [
  | inl absent ↦ rw (store_declare_scoped, absent) h
  | inr (d, held) ↦ elim (Option-cases (lookup (table_key key) s.sampler_tables)) [
    | inl new ↦ rw (store_declare_scoped, held, new) h
    | inr (t, table) ↦ rw (store_declare_scoped, held, table) (settle-IsAccounted s key d _ h held)
  ]
]

-- An operation of the store.
pub data StoreCall : Type 0 where
  naming : DomainKey → Time → StoreCall
  announcing : DomainKey → TemplateRef → Template → Time → StoreCall
  withdrawing : DomainKey → TemplateRef → StoreCall
  sweeping_domains : ℕ → Time → StoreCall
  declaring : DomainKey → ℕ → ℕ → Bool → ℕ → StoreCall
  declaring_scoped : DomainKey → ScopedRef → ℕ → StoreCall

unfoldable pub store_call : StoreCall → Store → Store
store_call (naming key at) s = (domain key at s).0
store_call (announcing key ref t at) s = (store_add key ref t at s).0
store_call (withdrawing key ref) s = withdraw key ref s
store_call (sweeping_domains cutoff at) s = (sweep_domains cutoff at s).0
store_call (declaring key odid id named rate) s = store_declare key odid id named rate s
store_call (declaring_scoped key ref rate) s = store_declare_scoped key ref rate s

unfoldable pub store_run : List StoreCall → Store → Store
store_run [] s = s
store_run (c ∷ rest) s = store_run rest (store_call c s)

store_call-IsAccounted : (c : StoreCall) (s : Store) → IsAccounted s → IsAccounted (store_call c s)
unfolding store_call sweep_domains
store_call-IsAccounted (naming key at) s h = domain-IsAccounted key at s h
store_call-IsAccounted (announcing key ref t at) s h = store_add-IsAccounted key ref t at s h
store_call-IsAccounted (withdrawing key ref) s h = withdraw-IsAccounted key ref s h
store_call-IsAccounted (sweeping_domains cutoff at) s h =
    let s' = evict_idle_domains cutoff s in
    tidy_loop-IsAccounted cutoff at (keys s'.domains) s' (evict_idle_domains-IsAccounted cutoff s h)
store_call-IsAccounted (declaring key odid id named rate) s h =
    store_declare-IsAccounted key odid id named rate s h
store_call-IsAccounted (declaring_scoped key ref rate) s h =
    store_declare_scoped-IsAccounted key ref rate s h

store_run_keeps : (run : List StoreCall) (s : Store) → IsAccounted s → IsAccounted (store_run run s)
unfolding store_run
store_run_keeps [] s h = h
store_run_keeps (c ∷ rest) s h =
    store_run_keeps rest (store_call c s) (store_call-IsAccounted c s h)

-- From an empty store, whatever domains are named, templates announced or withdrawn, rates declared and sweeps made,
-- every device is charged exactly the domains it holds and the fields that the templates of those
-- domains declare, and the bounds on its domains, on its fields, on a domain's templates and on the
-- fleet's devices all hold.
pub store_run-IsAccounted :
    (run : List StoreCall) (max_fields ttl : ℕ)
    → IsAccounted (store_run run (new_store max_fields ttl))
store_run-IsAccounted run max_fields ttl = store_run_keeps run (new_store max_fields ttl) (
    unfold lookup in
    record {
      keyed = tt;
      devices = tt;
      slotted = λ a. refl;
      charged = λ a. refl;
      few = λ a. omega arith;
      within = λ a. omega arith;
      fleet = omega arith;
      counted = λ key d is. ground (arith, is);
    })
