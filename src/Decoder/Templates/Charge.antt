-- ===== src/Decoder/Templates/Charge.antt =====
-- What templates cost, internal/decoder/templates.go.
use xflow_exporter.Common.{
  ℕ, ◌+◌, ◌-◌, ◌≤◌, ◌≡◌, true, some, [], ◌∷◌, Map, Distinct, length, arith, lookup, erase,
  Bool-cases, Option-cases, inl, inr, ltb, Distinct-insert, Distinct-erase, length-insert,
  length-erase-le, sum_by, sum_by-insert, sum_by-erase,
}
use xflow_exporter.Flow.{Time}
use xflow_exporter.Decoder.Domain.{
  DomainState, Template, TemplateRef, template_ref_eq, max_templates_per_domain,
  max_template_fields_per_exporter,
}
use xflow_exporter.Decoder.Templates.{
  Budget, fits, drop_template, prune_loop, prune_expired, store_template, pruned_for, add_template,
  is_expired, carried_note,
}

abbrev pub field_count : Template → ℕ
field_count t = length t.fields

-- The domain counts the fields of its templates, each held under one reference, and the device is
-- charged with them beside `others`, the fields of its other domains; both bounds hold.
pub record IsCharged (others : ℕ) (d : DomainState) (b : Budget) : Type 0 where
  pub distinct : Distinct d.templates
  pub counted : d.fields ≡ sum_by field_count d.templates
  pub charged : b.fields ≡ others + d.fields
  pub few : length d.templates ≤ max_templates_per_domain
  pub within : b.fields ≤ max_template_fields_per_exporter

pub drop_template-IsCharged :
    (others : ℕ) (d : DomainState) (b : Budget) (ref : TemplateRef)
    → IsCharged others d b
    → IsCharged others (drop_template d b ref).0 (drop_template d b ref).1
unfolding drop_template
drop_template-IsCharged others d b ref h = elim (Option-cases (lookup ref d.templates)) [
  | inl absent ↦ rw (absent, drop_template) h
  | inr (t, held) ↦
      rw (held, drop_template)
        (record {
          distinct = Distinct-erase ref d.templates h.distinct;
          counted = omega (arith, h.counted, freed t held);
          charged = omega (arith, h.counted, h.charged, freed t held);
          few = omega (arith, h.few, length-erase-le ref d.templates);
          within = omega (arith, h.within);
        })
]
  where
    freed :
        (t : Template)
        → lookup ref d.templates ≡ some t
        → sum_by field_count (erase ref d.templates) + length t.fields
          ≡ sum_by field_count d.templates
    freed t held = ground (arith, sum_by-erase field_count ref d.templates h.distinct)

prune_loop-IsCharged :
    (others : ℕ) (now : Time) (ttl : ℕ) (m : Map TemplateRef Template) (d : DomainState)
    (b : Budget) (oldest : Time)
    → IsCharged others d b
    → IsCharged others (prune_loop now ttl m d b oldest).0 (prune_loop now ttl m d b oldest).1
unfolding prune_loop
prune_loop-IsCharged others now ttl [] d b oldest h = h
prune_loop-IsCharged others now ttl ((ref, t) ∷ m) d b oldest h =
    elim (Bool-cases (is_expired now ttl t)) [
      | inl expired ↦
          rw (expired, prune_loop)
            (prune_loop-IsCharged others now ttl m (drop_template d b ref).0
              (drop_template d b ref).1 oldest (drop_template-IsCharged others d b ref h))
      | inr fresh ↦ rw (fresh, prune_loop) (prune_loop-IsCharged others now ttl m d b _ h)
    ]

pub prune_expired-IsCharged :
    (others : ℕ) (d : DomainState) (b : Budget) (now : Time) (ttl : ℕ)
    → IsCharged others d b
    → IsCharged others (prune_expired d b now ttl).0 (prune_expired d b now ttl).1
unfolding prune_expired
prune_expired-IsCharged others d b now ttl h =
    let p = prune_loop-IsCharged others now ttl d.templates d b now h in
    record {
      distinct = p.distinct;
      counted = p.counted;
      charged = p.charged;
      few = p.few;
      within = p.within;
    }

pruned_for-IsCharged :
    (others : ℕ) (d : DomainState) (b : Budget) (now : Time) (ttl : ℕ)
    → IsCharged others d b
    → IsCharged others (pruned_for d b now ttl).0 (pruned_for d b now ttl).1
unfolding pruned_for
pruned_for-IsCharged others d b now ttl h = elim (Bool-cases (ltb ttl (now - d.templates_oldest))) [
  | inl aged ↦ rw aged (prune_expired-IsCharged others d b now ttl h)
  | inr young ↦ rw young h
]

store_template-IsCharged :
    (others : ℕ) (d : DomainState) (b : Budget) (ref : TemplateRef) (t : Template)
    → fits d b ref t ≡ true
    → IsCharged others d b
    → IsCharged others (store_template d b ref t).0 (store_template d b ref t).1
unfolding store_template fits
store_template-IsCharged others d b ref t room h =
    let noted : Template = record t { noted = carried_note (lookup ref d.templates) t } in
    let sum = sum_by-insert field_count ref noted d.templates in
    record {
      distinct = Distinct-insert ref noted d.templates h.distinct;
      counted = ground (arith, h.counted, sum);
      charged = ground (arith, h.counted, h.charged, sum);
      few = ground (arith, h.few, length-insert ref noted d.templates);
      within = ground (arith, h.within);
    }

-- Whatever template is announced, and whether it is stored or refused, the domain counts exactly the
-- fields that its templates hold, the device stays charged with exactly those beside its other
-- domains', and neither bound is passed.
pub add_template-IsCharged :
    (others : ℕ) (d : DomainState) (b : Budget) (ref : TemplateRef) (t : Template) (now : Time)
    (ttl : ℕ)
    → IsCharged others d b
    → let ((d', b'), stored) = add_template d b ref t now ttl in IsCharged others d' b'
unfolding add_template
add_template-IsCharged others d b ref announced now ttl h =
    let t : Template = record announced { refreshed_at = now } in
    let d' = (pruned_for d b now ttl).0 in
    let b' = (pruned_for d b now ttl).1 in
    let h' = pruned_for-IsCharged others d b now ttl h in
    elim (Bool-cases (fits d b ref t)) [
      | inl room ↦ rw room (store_template-IsCharged others d b ref t room h)
      | inr full ↦ elim (Bool-cases (fits d' b' ref t)) [
        | inl freed ↦ rw (full, freed) (store_template-IsCharged others d' b' ref t freed h')
        | inr still ↦ rw (full, still) (drop_template-IsCharged others d' b' ref h')
      ]
    ]
