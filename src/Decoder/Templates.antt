-- ===== src/Decoder/Templates.antt =====
-- The templates of one domain and their charge against the device's budget,
-- internal/decoder/templates.go. A domain's `*exporterBudget` is passed beside it. Instants are on
-- the scale of `time.Time`, so that a bound never set lies at its zero instant.
pub mod Charge
pub mod Layouts
use xflow_exporter.Common.{
  ℕ, ◌+◌, ◌-◌, ◌≡◌, ◌↔◌, Bool, true, false, not, ◌&&◌, ◌||◌, Option, none, some, List, [], ◌∷◌, Map,
  lookup, insert, erase, length, if◌then◌else◌, ltb, leb, nat_eqb, is_some, Comparable, ◌==◌,
  nat_eq, list_eq, arith,
}
use xflow_exporter.Flow.{Time}
use xflow_exporter.Decoder.Domain.{
  DomainState, Template, TemplateField, TemplateRef, template_ref_eq, max_templates_per_domain,
  max_template_fields_per_exporter,
}

-- `exporterBudget`
pub record Budget : Type 0 where
  pub domains : ℕ
  pub fields : ℕ

abbrev pub template_field_eqb : TemplateField → TemplateField → Bool
template_field_eqb a b =
    a.field_type == b.field_type && a.length == b.length && a.enterprise == b.enterprise

pub template_field_eqb_iff : (a b : TemplateField) → (template_field_eqb a b ≡ true) ↔ (a ≡ b)
template_field_eqb_iff a b = ground arith

instance abbrev pub template_field_eq : Comparable TemplateField
template_field_eq = record { equals = template_field_eqb; equals_iff = template_field_eqb_iff }

abbrev bool_eqb : Bool → Bool → Bool
bool_eqb true b = b
bool_eqb false b = not b

-- `sameLayout`
unfoldable pub same_layout : Template → Template → Bool
same_layout t u =
    bool_eqb t.options u.options && nat_eqb t.scope_count u.scope_count && t.fields == u.fields

-- `heldFieldsLocked`
unfoldable pub held_fields : DomainState → TemplateRef → ℕ
held_fields d ref = elim (lookup ref d.templates) [ none ↦ 0 | some t ↦ length t.fields ]

-- `fitsLocked`: the growth `len(t.fields) - held` is added to the device's charge.
unfoldable pub fits : DomainState → Budget → TemplateRef → Template → Bool
unfolding held_fields
fits d b ref t =
    if not (is_some (lookup ref d.templates)) && leb max_templates_per_domain (length d.templates)
    then false
    else leb (b.fields + length t.fields) (max_template_fields_per_exporter + held_fields d ref)

-- `dropLocked`
unfoldable pub drop_template : DomainState → Budget → TemplateRef → DomainState × Budget
drop_template d b ref = elim (lookup ref d.templates) [
  | none ↦ (d, b)
  | some t ↦ (
    record d { fields = d.fields - length t.fields; templates = erase ref d.templates },
    record b { fields = b.fields - length t.fields },
  )
]

-- `now.Sub(t.refreshedAt) > ttl`
abbrev pub is_expired : Time → ℕ → Template → Bool
is_expired now ttl t = ltb ttl (now - t.refreshed_at)

-- The loop of `pruneExpiredLocked` over the references that the map held when it began.
unfoldable pub prune_loop :
    Time → ℕ → Map TemplateRef Template → DomainState → Budget → Time → DomainState × Budget × Time
unfolding drop_template
prune_loop now ttl [] d b oldest = (d, b, oldest)
prune_loop now ttl ((ref, t) ∷ rest) d b oldest = elim (is_expired now ttl t) [
  | true ↦ prune_loop now ttl rest (drop_template d b ref).0 (drop_template d b ref).1 oldest
  | false ↦
      prune_loop now ttl rest d b (if ltb t.refreshed_at oldest then t.refreshed_at else oldest)
]

-- `pruneExpiredLocked`
unfoldable pub prune_expired : DomainState → Budget → Time → ℕ → DomainState × Budget
unfolding prune_loop
prune_expired d b now ttl =
    let (d', b', oldest) = prune_loop now ttl d.templates d b now in
    (record d' { templates_oldest = oldest }, b')

abbrev pub carried_note : Option Template → Template → Bool
carried_note none t = t.noted
carried_note (some held) t = if same_layout held t then held.noted else t.noted

-- The end of `add`, once the template fits.
unfoldable pub store_template : DomainState → Budget → TemplateRef → Template → DomainState × Budget
unfolding held_fields
store_template d b ref t =
    let noted : Template = record t { noted = carried_note (lookup ref d.templates) t } in
    (
      record d {
        fields = d.fields + length t.fields - held_fields d ref;
        templates = insert ref noted d.templates;
      },
      record b { fields = b.fields + length t.fields - held_fields d ref },
    )

-- The prune that `add` makes where the template does not fit and the oldest has aged out.
unfoldable pub pruned_for : DomainState → Budget → Time → ℕ → DomainState × Budget
pruned_for d b now ttl =
    if ltb ttl (now - d.templates_oldest) then prune_expired d b now ttl else (d, b)

-- The body of `add` under the domain lock: the domain and the budget, and whether it was stored.
unfoldable pub add_template :
    DomainState → Budget → TemplateRef → Template → Time → ℕ → (DomainState × Budget) × Bool
add_template d b ref announced now ttl =
    let t : Template = record announced { refreshed_at = now } in
    if fits d b ref t
    then (store_template d b ref t, true)
    else let (d', b') = pruned_for d b now ttl in
      if fits d' b' ref t
      then (store_template d' b' ref t, true)
      else (drop_template d' b' ref, false)

-- `lookup` under the domain lock: a template past its time is as good as none.
unfoldable pub find_template : DomainState → TemplateRef → Time → ℕ → Option Template
find_template d ref now ttl = elim (lookup ref d.templates) [
  | none ↦ none
  | some t ↦ if is_expired now ttl t then none else some t
]

-- `counts`: the data and the options templates that are held now
unfoldable pub counts : Map TemplateRef Template → Time → ℕ → ℕ × ℕ
counts [] now ttl = (0, 0)
counts ((ref, t) ∷ rest) now ttl =
    let (data_count, options_count) = counts rest now ttl in
    if is_expired now ttl t
    then (data_count, options_count)
    else if t.options
    then (data_count, options_count + 1)
    else (data_count + 1, options_count)
