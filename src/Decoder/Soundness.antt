-- ===== src/Decoder/Soundness.antt =====
-- The templates that the store of internal/decoder/templates.go holds, and what a parser that walks
-- them relies on: their record length, and the domain behind the pointer it got.
pub mod Storing
pub mod Registering
pub mod Committing
pub mod Linking
use xflow_exporter.Common.{
  ℕ, ◌+◌, List, [], ◌∷◌, ◌≡◌, refl, sym, equals_refl, Bool, true, false, ◌&&◌, ◌||◌, Option, none,
  some, leb, nat_eqb, lookup, insert, Map, is_some, lookup-insert, ◌==◌, Bool-cases, inl, inr,
  if◌then◌else◌, arith,
}
use xflow_exporter.Decoder.Domain.{
  DomainState, DomainKey, SamplerKey, SamplerTable, Template, TemplateField, TemplateRef,
  domain_key_eq, sampler_key_eq, template_ref_eq, domain_key_eqb_iff, sampler_key_eqb_iff,
}
use xflow_exporter.Decoder.Store.{Store, table_key}
use xflow_exporter.Decoder.Register.{fixed_record_len}

-- The least that the fields take where those of length 65535 vary, each led by a byte at least.
unfoldable pub least_record_len : List TemplateField → ℕ
least_record_len [] = 0
least_record_len (f ∷ rest) =
    (if nat_eqb f.length 65535 then 1 else f.length) + least_record_len rest

-- The record length is the sum of the fields, or where one varies no more than the least they take.
abbrev pub is_measured : Template → Bool
is_measured t =
    if t.has_variable
    then leb t.record_len (least_record_len t.fields)
    else nat_eqb t.record_len (fixed_record_len t.fields)

-- A record of the template takes a byte at least.
abbrev pub is_walkable : Template → Bool
is_walkable t = leb 1 t.record_len && is_measured t

abbrev pub is_sound : Option Template → Bool
is_sound none = true
is_sound (some t) = is_walkable t

abbrev pub IsSoundDomain : DomainState → Type 0
IsSoundDomain d = (ref : TemplateRef) → is_sound (lookup ref d.templates) ≡ true

-- A domain has sound templates, and its device has a table of sampling declarations.
abbrev pub IsSoundEntry : Option DomainState → Option SamplerTable → Type 0
IsSoundEntry none table = Unit {0}
IsSoundEntry (some d) table = IsSoundDomain d × (is_some table ≡ true)

abbrev pub IsSound : Map DomainKey DomainState → Map SamplerKey SamplerTable → Type 0
IsSound domains tables =
    (key : DomainKey) → IsSoundEntry (lookup key domains) (lookup (table_key key) tables)

abbrev pub IsSoundStore : Store → Type 0
IsSoundStore s = IsSound s.domains s.sampler_tables

-- The domain that a parser works on is there.
abbrev pub IsReady : DomainKey → Store → Type 0
IsReady key s = IsSoundStore s × (is_some (lookup key s.domains) ≡ true)

pub IsSound-insert :
    (key : DomainKey) (d : DomainState) (domains : Map DomainKey DomainState)
    (tables : Map SamplerKey SamplerTable)
    → IsSound domains tables
    → IsSoundDomain d
    → is_some (lookup (table_key key) tables) ≡ true
    → IsSound (insert key d domains) tables
IsSound-insert key d domains tables sound own table other = elim (Bool-cases (key == other)) [
  | inr apart ↦ rw (lookup-insert key other d domains, apart) (sound other)
  | inl same ↦
      rw (lookup-insert key other d domains, same)
        (own, rw (sym ((domain_key_eqb_iff key other).0 same)) table)
]

pub IsSound-declare :
    (key : SamplerKey) (t : SamplerTable) (domains : Map DomainKey DomainState)
    (tables : Map SamplerKey SamplerTable)
    → IsSound domains tables
    → IsSound domains (insert key t tables)
IsSound-declare key t domains tables sound other = elim (Bool-cases (key == table_key other)) [
  | inr apart ↦ rw (lookup-insert key (table_key other) t tables, apart) (sound other)
  | inl same ↦
      rw (lookup-insert key (table_key other) t tables, same)
        (with_any (lookup other domains) _ (sound other))
]
  where
    with_any :
        (held : Option DomainState) (table : Option SamplerTable)
        → IsSoundEntry held table
        → IsSoundEntry held (some t)
    with_any none table h = tt
    with_any (some d) table (h, _) = (h, refl)

pub present_insert :
    {V : Type 0} (key : DomainKey) (v : V) (m : Map DomainKey V)
    → is_some (lookup key (insert key v m)) ≡ true
present_insert key v m = rw (lookup-insert key key v m, equals_refl key) refl

pub present_table :
    (key : SamplerKey) (t : SamplerTable) (m : Map SamplerKey SamplerTable)
    → is_some (lookup key (insert key t m)) ≡ true
present_table key t m = rw (lookup-insert key key t m, equals_refl key) refl

-- What a sound store says of a domain that it holds.
pub IsSound-lookup :
    (key : DomainKey) (s : Store) (d : DomainState)
    → IsSoundStore s
    → lookup key s.domains ≡ some d
    → IsSoundDomain d × (is_some (lookup (table_key key) s.sampler_tables) ≡ true)
IsSound-lookup key s d sound held = rw (held) at (sound key)
