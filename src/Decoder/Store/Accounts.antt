-- ===== src/Decoder/Store/Accounts.antt =====
-- What the store's budgets account for, internal/decoder/templates.go.
use xflow_exporter.Common.{
  ℕ, ◌+◌, ◌<◌, ◌≤◌, ◌≡◌, true, Option, none, some, Distinct, length, refl, arith, lookup, insert,
  if◌then◌else◌, Bool-cases, Option-cases, inl, inr, is_some, leb, Distinct-insert, length-insert,
  lookup-insert, sum_by, measure_or_zero, tally, tally-insert, ◌==◌,
}
use xflow_exporter.Flow.{Addr, Time}
use xflow_exporter.Flow.Identity.{addr_eq, addr_eqb_iff}
use xflow_exporter.Decoder.Domain.{
  DomainState, DomainKey, domain_key_eq, template_ref_eq, fresh_domain, max_domains_per_exporter,
  max_templates_per_domain, max_template_fields_per_exporter,
}
use xflow_exporter.Decoder.Templates.{Budget}
use xflow_exporter.Decoder.Templates.Charge.{field_count}
use xflow_exporter.Decoder.Stats.{max_exporters, unix_nano}
use xflow_exporter.Decoder.Store.{Store, opened, domain, refuse_domain, put_domain, fresh_budget}

-- A device's part of one domain's slots and fields.
abbrev pub slot_of : Addr → DomainKey → DomainState → ℕ
slot_of a key d = if key.exporter == a then 1 else 0

abbrev pub charge_of : Addr → DomainKey → DomainState → ℕ
charge_of a key d = if key.exporter == a then d.fields else 0

abbrev pub slots : Store → Addr → ℕ
slots s a = tally (slot_of a) s.domains

abbrev pub charges : Store → Addr → ℕ
charges s a = tally (charge_of a) s.domains

abbrev pub slots_held : Option Budget → ℕ
slots_held b = measure_or_zero (λ budget. budget.domains) b

abbrev pub fields_held : Option Budget → ℕ
fields_held b = measure_or_zero (λ budget. budget.fields) b

-- A domain counts the fields of its templates, each held once, within its bound.
pub record IsCounted (d : DomainState) : Type 0 where
  pub distinct : Distinct d.templates
  pub counted : d.fields ≡ sum_by field_count d.templates
  pub few : length d.templates ≤ max_templates_per_domain

-- A device has a budget while it has a domain; the budget counts its domains and the fields they
-- hold, and neither bound is passed; and no more devices have budgets than the fleet's bound.
pub record IsAccounted (s : Store) : Type 0 where
  pub keyed : Distinct s.domains
  pub devices : Distinct s.per_exporter
  pub slotted : (a : Addr) → slots_held (lookup a s.per_exporter) ≡ slots s a
  pub charged : (a : Addr) → fields_held (lookup a s.per_exporter) ≡ charges s a
  pub few : (a : Addr) → slots s a ≤ max_domains_per_exporter
  pub within : (a : Addr) → charges s a ≤ max_template_fields_per_exporter
  pub fleet : length s.per_exporter ≤ max_exporters
  pub counted : (key : DomainKey) (d : DomainState) → lookup key s.domains ≡ some d → IsCounted d

pub insert-IsCounted :
    (s : Store) (key : DomainKey) (d : DomainState)
    → IsAccounted s
    → IsCounted d
    → (k : DomainKey) (e : DomainState) → lookup k (insert key d s.domains) ≡ some e
    → IsCounted e
insert-IsCounted s key d h hd k e is = elim (Bool-cases (key == k)) [
  | inl same ↦ rw (found same) at hd
  | inr other ↦ h.counted k e (ground (arith, is, lookup-insert key k d s.domains))
]
  where
    found : (key == k) ≡ true → d ≡ e
    found same = ground (arith, is, lookup-insert key k d s.domains)

-- A domain written back with its device's budget.
pub put_domain-IsAccounted :
    (s : Store) (key : DomainKey) (d d' : DomainState) (b b' : Budget)
    → IsAccounted s
    → lookup key s.domains ≡ some d
    → lookup key.exporter s.per_exporter ≡ some b
    → b'.domains ≡ b.domains
    → b'.fields + d.fields ≡ b.fields + d'.fields
    → b'.fields ≤ max_template_fields_per_exporter
    → IsCounted d'
    → IsAccounted (put_domain key (d', b') s)
put_domain-IsAccounted s key d d' b b' h held budget same moved bound hd = record {
  keyed = Distinct-insert key d' s.domains h.keyed;
  devices = Distinct-insert key.exporter b' s.per_exporter h.devices;
  slotted = λ a. ground (
    arith,
    h.slotted a,
    sum_slots a,
    lookup-insert key.exporter a b' s.per_exporter,
    addr_eqb_iff key.exporter a,
  );
  charged = λ a. charged' a;
  few = λ a. ground (arith, h.few a, sum_slots a);
  within = λ a. elim (Bool-cases (key.exporter == a)) [
    | inl mine ↦ ground (arith, charged' a, lookup-insert key.exporter a b' s.per_exporter)
    | inr other ↦ ground (arith, h.within a, sum_charges a)
  ];
  fleet = ground (arith, h.fleet, length-insert key.exporter b' s.per_exporter);
  counted = insert-IsCounted s key d' h hd;
}
  where
    sum_slots : (a : Addr) → tally (slot_of a) (insert key d' s.domains) ≡ slots s a
    sum_slots a = ground (arith, tally-insert (slot_of a) key d' s.domains)

    sum_charges :
        (a : Addr)
        → tally (charge_of a) (insert key d' s.domains) + charge_of a key d
          ≡ charges s a + charge_of a key d'
    sum_charges a = ground (arith, tally-insert (charge_of a) key d' s.domains)

    charged' :
        (a : Addr)
        → fields_held (lookup a (insert key.exporter b' s.per_exporter))
          ≡ tally (charge_of a) (insert key d' s.domains)
    charged' a = ground (
      arith,
      h.charged a,
      sum_charges a,
      lookup-insert key.exporter a b' s.per_exporter,
      addr_eqb_iff key.exporter a,
    )

fresh_domain-IsCounted : (odid now : ℕ) → IsCounted (fresh_domain odid now)
fresh_domain-IsCounted odid now = record { distinct = tt; counted = refl; few = omega arith }

-- A new domain opened on the budget that its device has, or on a fresh one.
opened-IsAccounted :
    (s : Store) (key : DomainKey) (at : Time) (b : Budget)
    → IsAccounted s
    → lookup key s.domains ≡ none
    → b.domains ≡ slots_held (lookup key.exporter s.per_exporter)
    → b.fields ≡ fields_held (lookup key.exporter s.per_exporter)
    → b.domains < max_domains_per_exporter
    → (if is_some (lookup key.exporter s.per_exporter)
        then length s.per_exporter
        else length s.per_exporter + 1)
      ≤ max_exporters
    → IsAccounted (opened key at b s)
unfolding opened
opened-IsAccounted s key at b h absent slots_are fields_are room fits =
    let d = fresh_domain key.odid (unix_nano at) in
    let b' : Budget = record b { domains = b.domains + 1 } in
    let held = λ (a : Addr). lookup-insert key.exporter a b' s.per_exporter in
    let mine = λ (a : Addr). addr_eqb_iff key.exporter a in
    let sum = λ (a : Addr). tally-insert (slot_of a) key d s.domains in
    let charge = λ (a : Addr). tally-insert (charge_of a) key d s.domains in
    record {
      keyed = Distinct-insert key d s.domains h.keyed;
      devices = Distinct-insert key.exporter b' s.per_exporter h.devices;
      slotted = λ a. ground (arith, h.slotted a, sum a, held a, mine a);
      charged = λ a. ground (arith, h.charged a, charge a, held a, mine a);
      few = λ a. ground (arith, h.few a, h.slotted a, sum a, mine a);
      within = λ a. ground (arith, h.within a, charge a);
      fleet = ground (arith, length-insert key.exporter b' s.per_exporter);
      counted = insert-IsCounted s key d h (fresh_domain-IsCounted key.odid (unix_nano at));
    }

refuse-IsAccounted : (s : Store) → IsAccounted s → IsAccounted (refuse_domain s)
refuse-IsAccounted s h = record {
  keyed = h.keyed;
  devices = h.devices;
  slotted = h.slotted;
  charged = h.charged;
  few = h.few;
  within = h.within;
  fleet = h.fleet;
  counted = h.counted;
}

-- A domain written back unchanged in what is accounted.
stamp-IsAccounted :
    (s : Store) (key : DomainKey) (d : DomainState) (seen : ℕ)
    → IsAccounted s
    → lookup key s.domains ≡ some d
    → IsAccounted (record s { domains = insert key (record d { last_seen = seen }) s.domains })
stamp-IsAccounted s key d seen h held =
    let d' : DomainState = record d { last_seen = seen } in
    let hd = h.counted key d held in
    record {
      keyed = Distinct-insert key d' s.domains h.keyed;
      devices = h.devices;
      slotted = λ a. ground (arith, h.slotted a, tally-insert (slot_of a) key d' s.domains);
      charged = λ a. ground (arith, h.charged a, tally-insert (charge_of a) key d' s.domains);
      few = λ a. ground (arith, h.few a, tally-insert (slot_of a) key d' s.domains);
      within = λ a. ground (arith, h.within a, tally-insert (charge_of a) key d' s.domains);
      fleet = h.fleet;
      counted =
          insert-IsCounted s key d' h
            (record { distinct = hd.distinct; counted = hd.counted; few = hd.few });
    }

pub domain-IsAccounted :
    (key : DomainKey) (at : Time) (s : Store) → IsAccounted s → IsAccounted (domain key at s).0
unfolding domain
domain-IsAccounted key at s h = elim (Option-cases (lookup key s.domains)) [
  | inr (d, held) ↦ rw (domain, held) (stamp-IsAccounted s key d (unix_nano at) h held)
  | inl absent ↦ elim (Option-cases (lookup key.exporter s.per_exporter)) [
    | inr (b, budget) ↦ elim (Bool-cases (leb max_domains_per_exporter b.domains)) [
      | inl full ↦ rw (domain, absent, budget, full) (refuse-IsAccounted s h)
      | inr room ↦
          rw (domain, absent, budget, room)
            (opened-IsAccounted s key at b h absent (rw budget refl) (rw budget refl) (ground arith)
              (rw budget h.fleet))
    ]
    | inl new ↦ elim (Bool-cases (leb max_exporters (length s.per_exporter))) [
      | inl full ↦ rw (domain, absent, new, full) (refuse-IsAccounted s h)
      | inr room ↦
          rw (domain, absent, new, room)
            (opened-IsAccounted s key at fresh_budget h absent (rw new refl) (rw new refl)
              (omega arith) (rw new (ground arith)))
    ]
  ]
]
