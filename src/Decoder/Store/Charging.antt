-- ===== src/Decoder/Store/Charging.antt =====
-- One domain's operations and its device's charge and slots, internal/decoder/templates.go.
use xflow_exporter.Common.{
  ℕ, ◌-◌, ◌≡◌, some, [], ◌∷◌, Map, refl, ◌∙◌, arith, lookup, erase, Bool-cases, inl, inr, ltb,
  tally, tally-erase,
}
use xflow_exporter.Flow.{Time}
use xflow_exporter.Flow.Identity.{addr_eq, addr_eqb_iff}
use xflow_exporter.Decoder.Domain.{
  DomainState, DomainKey, Template, TemplateRef, domain_key_eq, template_ref_eq, sampler_key_eq,
}
use xflow_exporter.Decoder.Templates.{
  Budget, add_template, drop_template, prune_expired, prune_loop, is_expired, store_template,
  pruned_for, fits,
}
use xflow_exporter.Decoder.Templates.Charge.{IsCharged}
use xflow_exporter.Decoder.Store.{Store, put_domain}
use xflow_exporter.Decoder.Store.Accounts.{IsAccounted, charge_of, put_domain-IsAccounted}

-- The fields of the device's other domains.
abbrev pub others_of : DomainKey → Store → ℕ
others_of key s = tally (charge_of key.exporter) (erase key s.domains)

pub domain-IsCharged :
    (s : Store) (key : DomainKey) (d : DomainState) (b : Budget)
    → IsAccounted s
    → lookup key s.domains ≡ some d
    → lookup key.exporter s.per_exporter ≡ some b
    → IsCharged (others_of key s) d b
domain-IsCharged s key d b h held budget =
    let c = h.counted key d held in
    let parts = tally-erase (charge_of key.exporter) key s.domains h.keyed in
    record {
      distinct = c.distinct;
      counted = c.counted;
      charged =
          ground (arith, h.charged key.exporter, parts, addr_eqb_iff key.exporter key.exporter);
      few = c.few;
      within = ground (arith, h.charged key.exporter, h.within key.exporter);
    }

-- An operation on one domain and its budget that keeps the charge and the slots keeps the accounts.
pub put_charged :
    (s : Store) (key : DomainKey) (d : DomainState) (b : Budget) (p : DomainState × Budget)
    → IsAccounted s
    → lookup key s.domains ≡ some d
    → lookup key.exporter s.per_exporter ≡ some b
    → IsCharged (others_of key s) p.0 p.1
    → p.1.domains ≡ b.domains
    → IsAccounted (put_domain key p s)
put_charged s key d b (d', b') h held budget after slots_same =
    let before = domain-IsCharged s key d b h held budget in
    put_domain-IsAccounted s key d d' b b' h held budget slots_same
      (omega (arith, before.charged, after.charged)) after.within
      (record { distinct = after.distinct; counted = after.counted; few = after.few })

pub slots-drop_template :
    (d : DomainState) (b : Budget) (ref : TemplateRef)
    → (drop_template d b ref).1.domains ≡ b.domains
unfolding drop_template
slots-drop_template d b ref = ground arith

pub slots-prune_loop :
    (now : Time) (ttl : ℕ) (m : Map TemplateRef Template) (d : DomainState) (b : Budget)
    (oldest : Time)
    → (prune_loop now ttl m d b oldest).1.domains ≡ b.domains
unfolding prune_loop
slots-prune_loop now ttl [] d b oldest = refl
slots-prune_loop now ttl ((ref, t) ∷ m) d b oldest = elim (Bool-cases (is_expired now ttl t)) [
  | inl expired ↦
      rw (expired, prune_loop)
        (slots-prune_loop now ttl m (drop_template d b ref).0 (drop_template d b ref).1 oldest
          ∙ slots-drop_template d b ref)
  | inr fresh ↦ rw (fresh, prune_loop) (slots-prune_loop now ttl m d b _)
]

slots-pruned_for :
    (d : DomainState) (b : Budget) (now : Time) (ttl : ℕ)
    → (pruned_for d b now ttl).1.domains ≡ b.domains
unfolding pruned_for prune_expired
slots-pruned_for d b now ttl = elim (Bool-cases (ltb ttl (now - d.templates_oldest))) [
  | inl aged ↦ rw aged (slots-prune_loop now ttl d.templates d b now)
  | inr young ↦ rw young refl
]

pub slots-add_template :
    (d : DomainState) (b : Budget) (ref : TemplateRef) (t : Template) (now : Time) (ttl : ℕ)
    → (add_template d b ref t now ttl).0.1.domains ≡ b.domains
unfolding add_template store_template
slots-add_template d b ref announced now ttl =
    let t : Template = record announced { refreshed_at = now } in
    let d' = (pruned_for d b now ttl).0 in
    let b' = (pruned_for d b now ttl).1 in
    elim (Bool-cases (fits d b ref t)) [
      | inl room ↦ rw room refl
      | inr full ↦ elim (Bool-cases (fits d' b' ref t)) [
        | inl freed ↦ rw (full, freed) (slots-pruned_for d b now ttl)
        | inr still ↦
            rw (full, still) (slots-drop_template d' b' ref ∙ slots-pruned_for d b now ttl)
      ]
    ]
