-- ===== src/Decoder/Declarations/Precedence.antt =====
-- Which rate a record that names its sampler takes, `correctionFor` of internal/decoder/templates.go.
use xflow_exporter.Common.{
  ℕ, ◌<◌, ◌≡◌, Bool, true, false, none, some, ◌∙◌, arith, nat_eqb, lookup, insert, lookup-insert,
  if◌then◌else◌, equals_refl, Map,
}
use xflow_exporter.Decoder.Domain.{
  SamplerTable, SamplerEntry, SamplerRef, DomainState, sampler_ref_eq,
}
use xflow_exporter.Decoder.Declarations.{
  declare, correction_for, declared_rate, mark_named, rates_of, sole_loop, agreed,
}

abbrev pub own_ref : DomainState → ℕ → SamplerRef
own_ref d id = record { odid = d.odid; id = id }

named-mark_named :
    (t : SamplerTable) (id : ℕ) (is_sampler : Bool) → (mark_named t id is_sampler).named ≡ t.named
unfolding mark_named
named-mark_named t id is_sampler = ground arith

-- The rate that one domain's records of one identifier take, from the named declarations alone.
abbrev decided_rate : Map SamplerRef SamplerEntry → ℕ → ℕ → Bool → ℕ × Bool
decided_rate named odid id device_wide = elim (lookup (record { odid = odid; id = id }) named) [
  | some entry ↦ (entry.rate, true)
  | none ↦ if device_wide then agreed (sole_loop 0 (rates_of id named)) else (0, false)
]

correction_decided :
    (d : DomainState) (t : SamplerTable) (id : ℕ) (is_sampler : Bool) (rate : ℕ)
    → decided_rate t.named d.odid id is_sampler ≡ (rate, true)
    → (correction_for d t id is_sampler).1 ≡ (rate, nat_eqb rate 0)
unfolding correction_for
correction_decided d t id is_sampler rate h = rw settled
  where
    settled : declared_rate (mark_named t id is_sampler) d.odid id is_sampler ≡ (rate, true)
    settled = unfold declared_rate in rw (named-mark_named t id is_sampler) h

named-declare :
    (t : SamplerTable) (odid id rate at : ℕ)
    → (declare t odid id true rate at).1.taken ≡ true
    → (declare t odid id true rate at).0.named
      ≡ insert (record { odid = odid; id = id }) (record { rate = rate; last_seen = at }) t.named
unfolding declare
named-declare t odid id rate at h = ground arith

declared_own :
    (d : DomainState) (m : Map SamplerRef SamplerEntry) (id : ℕ) (is_sampler : Bool)
    (entry : SamplerEntry)
    → decided_rate (insert (own_ref d id) entry m) d.odid id is_sampler ≡ (entry.rate, true)
declared_own d m id is_sampler entry =
    ground (arith, lookup-insert (own_ref d id) (own_ref d id) entry m, equals_refl (own_ref d id))

-- A declaration that a domain's table takes settles the records of that domain that name it: they are
-- corrected by its rate and owed nothing, whether the identifier is the device's or the domain's.
pub correction-declare :
    (d : DomainState) (t : SamplerTable) (id rate at : ℕ) (is_sampler : Bool)
    → 0 < rate
    → (declare t d.odid id true rate at).1.taken ≡ true
    → (correction_for d (declare t d.odid id true rate at).0 id is_sampler).1 ≡ (rate, false)
correction-declare d t id rate at is_sampler h taken =
    correction_decided d (declare t d.odid id true rate at).0 id is_sampler rate
      (rw (named-declare t d.odid id rate at taken) (declared_own d t.named id is_sampler _))
    ∙ ground arith
