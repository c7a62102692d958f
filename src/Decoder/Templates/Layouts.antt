-- ===== src/Decoder/Templates/Layouts.antt =====
-- Which layout an announcement leaves behind, internal/decoder/templates.go.
use xflow_exporter.Common.{
  ℕ, ◌-◌, ◌≡◌, Bool, true, false, Option, none, some, List, [], ◌∷◌, Map, Distinct, refl, ◌∙◌,
  arith, lookup, if◌then◌else◌, Bool-cases, Option-cases, inl, inr, ltb, lookup-insert,
  lookup-erase, ◌==◌, equals_refl,
}
use xflow_exporter.Flow.{Time}
use xflow_exporter.Decoder.Domain.{
  DomainState, Template, TemplateField, TemplateRef, template_ref_eq, template_ref_eqb_iff,
}
use xflow_exporter.Decoder.Templates.{
  Budget, fits, drop_template, prune_loop, prune_expired, store_template, pruned_for, add_template,
  is_expired, find_template, carried_note,
}

-- The layout that a template declares.
abbrev pub layout : Option Template → Option (List TemplateField)
layout none = none
layout (some t) = some t.fields

-- Each entry of the list is what the domain holds under its reference.
abbrev IsHeld : Map TemplateRef Template → DomainState → Type 0
IsHeld m d = (k : TemplateRef) (u : Template) → lookup k m ≡ some u → lookup k d.templates ≡ some u

pub lookup-drop_template :
    (d : DomainState) (b : Budget) (ref j : TemplateRef)
    → lookup j (drop_template d b ref).0.templates
      ≡ (if ref == j then none else lookup j d.templates)
unfolding drop_template
lookup-drop_template d b ref j = elim (Option-cases (lookup ref d.templates)) [
  | inl absent ↦ rw (absent, drop_template) (still absent)
  | inr (t, held) ↦ rw (held, drop_template) (lookup-erase ref j d.templates)
]
  where
    still :
        lookup ref d.templates ≡ none
        → lookup j d.templates ≡ (if ref == j then none else lookup j d.templates)
    still absent = elim (Bool-cases (ref == j)) [
      | inl same ↦ rw (same, ← (template_ref_eqb_iff ref j).0 same) absent
      | inr other ↦ rw other
    ]

find-drop_template :
    (d : DomainState) (b : Budget) (ref j : TemplateRef) (now : Time) (ttl : ℕ)
    → find_template (drop_template d b ref).0 j now ttl
      ≡ (if ref == j then none else find_template d j now ttl)
unfolding find_template
find-drop_template d b ref j now ttl = elim (Bool-cases (ref == j)) [
  | inl same ↦ rw (find_template, lookup-drop_template d b ref j, same) refl
  | inr other ↦ rw (find_template, lookup-drop_template d b ref j, other) refl
]

IsHeld-tail :
    (ref : TemplateRef) (t : Template) (m : Map TemplateRef Template) (d : DomainState)
    → lookup ref m ≡ none
    → IsHeld ((ref, t) ∷ m) d
    → IsHeld m d
unfolding lookup
IsHeld-tail ref t m d apart held k u is = ground (arith, held k u, template_ref_eqb_iff ref k)

IsHeld-drop :
    (ref : TemplateRef) (m : Map TemplateRef Template) (d : DomainState) (b : Budget)
    → lookup ref m ≡ none
    → IsHeld m d
    → IsHeld m (drop_template d b ref).0
IsHeld-drop ref m d b apart held k u is =
    ground (arith, held k u, template_ref_eqb_iff ref k, lookup-drop_template d b ref k)

expired_is_none :
    (d : DomainState) (ref j : TemplateRef) (t : Template) (now : Time) (ttl : ℕ)
    → lookup ref d.templates ≡ some t
    → is_expired now ttl t ≡ true
    → (if ref == j then none else find_template d j now ttl) ≡ find_template d j now ttl
unfolding find_template
expired_is_none d ref j t now ttl held expired = elim (Bool-cases (ref == j)) [
  | inl same ↦ rw (same, ← (template_ref_eqb_iff ref j).0 same, find_template, held, expired) refl
  | inr other ↦ rw other refl
]

find-prune_loop :
    (now : Time) (ttl : ℕ) (j : TemplateRef) (m : Map TemplateRef Template) (d : DomainState)
    (b : Budget) (oldest : Time)
    → Distinct m
    → IsHeld m d
    → find_template (prune_loop now ttl m d b oldest).0 j now ttl ≡ find_template d j now ttl
unfolding prune_loop lookup
find-prune_loop now ttl j [] d b oldest apart held = refl
find-prune_loop now ttl j ((ref, t) ∷ m) d b oldest (absent, apart) held =
    elim (Bool-cases (is_expired now ttl t)) [
      | inl expired ↦
          rw (expired, prune_loop)
            (find-prune_loop now ttl j m (drop_template d b ref).0 (drop_template d b ref).1 oldest
                apart (IsHeld-drop ref m d b absent below)
              ∙ find-drop_template d b ref j now ttl
              ∙ expired_is_none d ref j t now ttl (held ref t here) expired)
      | inr fresh ↦ rw (fresh, prune_loop) (find-prune_loop now ttl j m d b _ apart below)
    ]
  where
    below : IsHeld m d
    below = IsHeld-tail ref t m d absent held

    here : lookup ref ((ref, t) ∷ m) ≡ some t
    here = rw (lookup, equals_refl ref) refl

find-pruned_for :
    (d : DomainState) (b : Budget) (j : TemplateRef) (now : Time) (ttl : ℕ)
    → Distinct d.templates
    → find_template (pruned_for d b now ttl).0 j now ttl ≡ find_template d j now ttl
unfolding pruned_for prune_expired find_template
find-pruned_for d b j now ttl apart = elim (Bool-cases (ltb ttl (now - d.templates_oldest))) [
  | inl aged ↦ rw aged (find-prune_loop now ttl j d.templates d b now apart (λ k u is. is))
  | inr young ↦ rw young refl
]

find-store_template :
    (d : DomainState) (b : Budget) (ref j : TemplateRef) (t : Template) (ttl : ℕ)
    → layout (find_template (store_template d b ref t).0 j t.refreshed_at ttl)
      ≡ (if ref == j then some t.fields else layout (find_template d j t.refreshed_at ttl))
unfolding find_template store_template
find-store_template d b ref j t ttl =
    let noted : Template = record t { noted = carried_note (lookup ref d.templates) t } in
    ground (arith, lookup-insert ref j noted d.templates)

-- After an announcement at `now` over distinct references, a decode at `now` finds under the
-- announced reference the announced fields where the template was stored, and no template where it
-- was refused; under every other reference it finds the fields that it found before.
pub add_template-find :
    (d : DomainState) (b : Budget) (ref j : TemplateRef) (t : Template) (now : Time) (ttl : ℕ)
    → Distinct d.templates
    → let ((d', b'), stored) = add_template d b ref t now ttl in
      layout (find_template d' j now ttl) ≡ (
        if ref == j
        then (if stored then some t.fields else none)
        else layout (find_template d j now ttl))
unfolding add_template
add_template-find d b ref j announced now ttl apart =
    let t : Template = record announced { refreshed_at = now } in
    let d' = (pruned_for d b now ttl).0 in
    let b' = (pruned_for d b now ttl).1 in
    elim (Bool-cases (fits d b ref t)) [
      | inl room ↦ rw room (find-store_template d b ref j t ttl)
      | inr full ↦ elim (Bool-cases (fits d' b' ref t)) [
        | inl freed ↦
            rw (full, freed, ← find-pruned_for d b j now ttl apart)
              (find-store_template d' b' ref j t ttl)
        | inr still ↦
            rw
              (
                full,
                still,
                ← find-pruned_for d b j now ttl apart,
                find-drop_template d' b' ref j now ttl,
              )
              (dropped (ref == j) (find_template d' j now ttl))
      ]
    ]
  where
    dropped :
        (same : Bool) (found : Option Template)
        → layout (if same then none else found) ≡ (if same then none else layout found)
    dropped true found = refl
    dropped false found = refl
