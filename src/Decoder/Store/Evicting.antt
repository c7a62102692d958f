-- ===== src/Decoder/Store/Evicting.antt =====
-- The store's accounts under its evictions and its sweeps, internal/decoder/templates.go.
use xflow_exporter.Common.{
  ℕ, ◌-◌, ◌≡◌, some, List, [], ◌∷◌, Map, refl, sym, ◌∙◌, arith, lookup, erase, Bool-cases,
  Option-cases, inl, inr, leb, Distinct-insert, Distinct-erase, length-insert, length-erase-le,
  lookup-insert, lookup-erase, tally, tally-erase, map_values, keys, lookup-map_values,
  Distinct-map_values,
}
use xflow_exporter.Flow.{Addr}
use xflow_exporter.Flow.Identity.{addr_eq, addr_eqb_iff}
use xflow_exporter.Decoder.Domain.{
  DomainState, DomainKey, SamplerKey, SamplerTable, domain_key_eq, sampler_key_eq, template_ref_eq,
}
use xflow_exporter.Decoder.Templates.{Budget}
use xflow_exporter.Decoder.Declarations.{expire}
use xflow_exporter.Decoder.Store.{
  Store, evict, evict_if_idle, evict_loop, sweep_sampler_tables, restated, evict_idle_domains,
  table_key,
}
use xflow_exporter.Decoder.Store.Accounts.{IsAccounted, IsCounted, slot_of, charge_of}

-- A device without domains is charged nothing.
charge_needs_slot :
    (a : Addr) (m : Map DomainKey DomainState) → tally (slot_of a) m ≡ 0 → tally (charge_of a) m ≡ 0
charge_needs_slot a [] h = refl
charge_needs_slot a ((key, d) ∷ m) h = ground (arith, charge_needs_slot a m)

evict-IsCounted :
    (s : Store) (key : DomainKey)
    → IsAccounted s
    → (k : DomainKey) (e : DomainState) → lookup k (erase key s.domains) ≡ some e
    → IsCounted e
evict-IsCounted s key h k e is = h.counted k e (ground (arith, is, lookup-erase key k s.domains))

evict-IsAccounted :
    (s : Store) (key : DomainKey) (d : DomainState)
    → IsAccounted s
    → lookup key s.domains ≡ some d
    → IsAccounted (evict key d s)
unfolding evict
evict-IsAccounted s key d h held =
    let slot = λ (a : Addr). tally-erase (slot_of a) key s.domains h.keyed in
    let charge = λ (a : Addr). tally-erase (charge_of a) key s.domains h.keyed in
    let mine = λ (a : Addr). addr_eqb_iff key.exporter a in
    elim (Option-cases (lookup key.exporter s.per_exporter)) [
      | inl absent ↦
          rw (evict, absent)
            (record {
              keyed = Distinct-erase key s.domains h.keyed;
              devices = h.devices;
              slotted = λ a. ground (arith, h.slotted a, slot a, mine a);
              charged = λ a. ground (arith, h.charged a, charge a, h.slotted a, slot a, mine a);
              few = λ a. ground (arith, h.few a, slot a);
              within = λ a. ground (arith, h.within a, charge a);
              fleet = h.fleet;
              counted = evict-IsCounted s key h;
            })
      | inr (b, budget) ↦ elim (Bool-cases (leb (b.domains - 1) 0)) [
        | inl last ↦
            rw (evict, budget, last)
              (record {
                keyed = Distinct-erase key s.domains h.keyed;
                devices = Distinct-erase key.exporter s.per_exporter h.devices;
                slotted = λ a. ground (
                  arith,
                  h.slotted a,
                  slot a,
                  mine a,
                  lookup-erase key.exporter a s.per_exporter,
                );
                charged = λ a. ground (
                  arith,
                  h.charged a,
                  h.slotted a,
                  slot a,
                  charge a,
                  mine a,
                  lookup-erase key.exporter a s.per_exporter,
                  charge_needs_slot a (erase key s.domains),
                );
                few = λ a. ground (arith, h.few a, slot a);
                within = λ a. ground (arith, h.within a, charge a);
                fleet = ground (arith, h.fleet, length-erase-le key.exporter s.per_exporter);
                counted = evict-IsCounted s key h;
              })
        | inr more ↦
            let b' : Budget = record { domains = b.domains - 1; fields = b.fields - d.fields } in
            rw (evict, budget, more)
              (record {
                keyed = Distinct-erase key s.domains h.keyed;
                devices = Distinct-insert key.exporter b' s.per_exporter h.devices;
                slotted = λ a. ground (
                  arith,
                  h.slotted a,
                  slot a,
                  mine a,
                  lookup-insert key.exporter a b' s.per_exporter,
                );
                charged = λ a. ground (
                  arith,
                  h.charged a,
                  charge a,
                  mine a,
                  lookup-insert key.exporter a b' s.per_exporter,
                );
                few = λ a. ground (arith, h.few a, slot a);
                within = λ a. ground (arith, h.within a, charge a);
                fleet = ground (arith, h.fleet, length-insert key.exporter b' s.per_exporter);
                counted = evict-IsCounted s key h;
              })
      ]
    ]

evict_loop-IsAccounted :
    (cutoff : ℕ) (ks : List DomainKey) (s : Store)
    → IsAccounted s
    → IsAccounted (evict_loop cutoff ks s)
unfolding evict_loop evict_if_idle
evict_loop-IsAccounted cutoff [] s h = h
evict_loop-IsAccounted cutoff (key ∷ ks) s h =
    evict_loop-IsAccounted cutoff ks (evict_if_idle cutoff key s) step
  where
    step : IsAccounted (evict_if_idle cutoff key s)
    step = elim (Option-cases (lookup key s.domains)) [
      | inl absent ↦ rw (evict_if_idle, absent) h
      | inr (d, held) ↦ elim (Bool-cases (leb cutoff d.last_seen)) [
        | inl live ↦ rw (evict_if_idle, held, live) h
        | inr idle ↦ rw (evict_if_idle, held, idle) (evict-IsAccounted s key d h held)
      ]
    ]

-- A change of the domains' declared rates alone.
module _ (tables : Map SamplerKey SamplerTable) where
  slots_restated :
      (a : Addr) (m : Map DomainKey DomainState)
      → tally (slot_of a) (map_values (restated tables) m) ≡ tally (slot_of a) m
  unfolding map_values
  slots_restated a [] = refl
  slots_restated a ((key, d) ∷ m) = omega (arith, slots_restated a m)

  charge_restated :
      (a : Addr) (key : DomainKey) (d : DomainState)
      → charge_of a key (restated tables key d) ≡ charge_of a key d
  charge_restated a key d = ground arith

  charges_restated :
      (a : Addr) (m : Map DomainKey DomainState)
      → tally (charge_of a) (map_values (restated tables) m) ≡ tally (charge_of a) m
  unfolding map_values
  charges_restated a [] = refl
  charges_restated a ((key, d) ∷ m) = omega (arith, charges_restated a m, charge_restated a key d)

  restated-IsCounted :
      (key : DomainKey) (d : DomainState) → IsCounted d → IsCounted (restated tables key d)
  restated-IsCounted key d h = elim (Option-cases (lookup (table_key key) tables)) [
    | inl absent ↦ rw (absent, restated) h
    | inr (t, held) ↦
        rw (held, restated) (record { distinct = h.distinct; counted = h.counted; few = h.few })
  ]

  map_values-IsCounted :
      (s : Store)
      → IsAccounted s
      → (k : DomainKey) (e : DomainState)
      → lookup k (map_values (restated tables) s.domains) ≡ some e
      → IsCounted e
  map_values-IsCounted s h k e is = elim (Option-cases (lookup k s.domains)) [
    | inl absent ↦ cc (is, lookup-map_values (restated tables) k s.domains, absent)
    | inr (d, held) ↦ rw (changed d held) at (restated-IsCounted k d (h.counted k d held))
  ]
    where
      changed : (d : DomainState) → lookup k s.domains ≡ some d → restated tables k d ≡ e
      changed d held = ground (arith, is, lookup-map_values (restated tables) k s.domains, held)

pub evict_idle_domains-IsAccounted :
    (cutoff : ℕ) (s : Store) → IsAccounted s → IsAccounted (evict_idle_domains cutoff s)
unfolding evict_idle_domains sweep_sampler_tables
evict_idle_domains-IsAccounted cutoff s h0 =
    let s' = evict_loop cutoff (keys s.domains) s in
    let h = evict_loop-IsAccounted cutoff (keys s.domains) s h0 in
    let tables = map_values (λ (key : SamplerKey) table. expire table cutoff) s'.sampler_tables in
    record {
      keyed = Distinct-map_values (restated tables) s'.domains h.keyed;
      devices = h.devices;
      slotted = λ a. h.slotted a ∙ sym (slots_restated tables a s'.domains);
      charged = λ a. h.charged a ∙ sym (charges_restated tables a s'.domains);
      few = λ a. rw (slots_restated tables a s'.domains) (h.few a);
      within = λ a. rw (charges_restated tables a s'.domains) (h.within a);
      fleet = h.fleet;
      counted = map_values-IsCounted tables s' h;
    }
