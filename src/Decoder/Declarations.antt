-- ===== src/Decoder/Declarations.antt =====
-- The sampling declarations of one device, internal/decoder/templates.go: the methods of
-- `samplerTable`, and the rates that a domain takes from it.
pub mod Sole
pub mod Budget
pub mod Agreement
pub mod Precedence
use xflow_exporter.Common.{
  ℕ, ◌+◌, Bool, true, false, not, ◌&&◌, ◌||◌, Option, none, some, List, [], ◌∷◌, ◌++◌, map, Map,
  lookup, insert, length, if◌then◌else◌, ltb, leb, nat_eqb, is_some, nat_eq, add64,
}
use xflow_exporter.Decoder.Domain.{
  SamplerTable, SamplerEntry, SamplerRef, ScopedRef, scope_template, scope_interface, scope_domain,
  DomainState, TemplateRef, max_samplers_per_exporter, unsampled_sampler_id, sampler_ref_eq,
  scoped_ref_eq,
}

-- The rates of a map's declarations, in its order.
abbrev pub rates : {K : Type 0} → Map K SamplerEntry → List ℕ
rates [] = []
rates ((k, entry) ∷ rest) = entry.rate ∷ rates rest

-- The loops of `soleRateLocked`, from the rate they agreed on so far; `none` is the early `return 0`.
unfoldable pub sole_loop : ℕ → List ℕ → Option ℕ
sole_loop sole [] = some sole
sole_loop sole (rate ∷ rest) = elim (not (nat_eqb sole 0) && not (nat_eqb rate sole)) [
  | true ↦ none
  | false ↦ sole_loop rate rest
]

abbrev pub rate_or_zero : Option ℕ → ℕ
rate_or_zero none = 0
rate_or_zero (some rate) = rate

-- `soleRateLocked`
unfoldable pub sole_rate : SamplerTable → ℕ
unfolding sole_loop
sole_rate t = rate_or_zero (sole_loop 0 (rates t.named ++ rates t.plain))

-- `sizeLocked`
unfoldable pub declarations : SamplerTable → ℕ
declarations t = length t.named + length t.plain + length t.scoped

-- What `declare` and `declareScoped` answer: whether the table took the declaration, and whether it
-- replaced another rate.
pub record Verdict : Type 0 where
  pub taken : Bool
  pub changed : Bool

abbrev pub replaced : Option SamplerEntry → ℕ → Bool
replaced none rate = false
replaced (some previous) rate = not (nat_eqb previous.rate rate)

-- `declare`
unfoldable pub declare : SamplerTable → ℕ → ℕ → Bool → ℕ → ℕ → SamplerTable × Verdict
unfolding sole_rate declarations
declare t odid id named rate at =
    let ref : SamplerRef = record { odid = odid; id = id } in
    let previous = if named then lookup ref t.named else lookup odid t.plain in
    if not (is_some previous) && leb max_samplers_per_exporter (declarations t)
    then (t, record { taken = false; changed = false })
    else let entry : SamplerEntry = record { rate = rate; last_seen = at } in
      let t' =
        if named
        then record t { named = insert ref entry t.named }
        else record t { plain = insert odid entry t.plain } in
      (
        record t' {
          inherited = sole_rate t';
          sampled = true;
          declared_zero =
              if named && nat_eqb id unsampled_sampler_id then true else t.declared_zero;
        },
        record { taken = true; changed = replaced previous rate },
      )

-- `declareScoped`
unfoldable pub declare_scoped : SamplerTable → ScopedRef → ℕ → ℕ → SamplerTable × Verdict
unfolding declarations
declare_scoped t ref rate at =
    let previous = lookup ref t.scoped in
    if not (is_some previous) && leb max_samplers_per_exporter (declarations t)
    then (t, record { taken = false; changed = false })
    else (
      record t {
        scoped = insert ref (record { rate = rate; last_seen = at }) t.scoped;
        has_scoped = true;
        sampled = true;
      },
      record { taken = true; changed = replaced previous rate },
    )

-- `scopedRate`; `none` is its `false`.
unfoldable pub scoped_rate : SamplerTable → ScopedRef → Option ℕ
scoped_rate t ref =
    if t.has_scoped
    then (elim (lookup ref t.scoped) [ none ↦ none | some entry ↦ some entry.rate ])
    else none

-- The declarations announced at the cutoff or later.
unfoldable pub announced_since : {K : Type 0} → ℕ → Map K SamplerEntry → Map K SamplerEntry
announced_since cutoff [] = []
announced_since cutoff ((k, entry) ∷ rest) =
    let kept = announced_since cutoff rest in
    if ltb entry.last_seen cutoff then kept else (k, entry) ∷ kept

-- `expire`
unfoldable pub expire : SamplerTable → ℕ → SamplerTable
unfolding announced_since sole_rate
expire t cutoff =
    let t' = record t {
      scoped = announced_since cutoff t.scoped;
      named = announced_since cutoff t.named;
      plain = announced_since cutoff t.plain;
    } in
    record t' { has_scoped = ltb 0 (length t'.scoped); inherited = sole_rate t' }

-- The rates that a device's domains declared for one identifier.
unfoldable pub rates_of : ℕ → Map SamplerRef SamplerEntry → List ℕ
rates_of id [] = []
rates_of id ((ref, entry) ∷ rest) =
    let others = rates_of id rest in if nat_eqb ref.id id then entry.rate ∷ others else others

abbrev pub agreed : Option ℕ → ℕ × Bool
agreed none = (0, true)
agreed (some sole) = (sole, not (nat_eqb sole 0))

-- `declaredRate`: the rate, and whether the table settled the question.
unfoldable pub declared_rate : SamplerTable → ℕ → ℕ → Bool → ℕ × Bool
unfolding rates_of sole_loop
declared_rate t odid id device_wide = elim (lookup (record { odid = odid; id = id }) t.named) [
  | some entry ↦ (entry.rate, true)
  | none ↦ if device_wide then agreed (sole_loop 0 (rates_of id t.named)) else (0, false)
]

-- `plainRate`
unfoldable pub plain_rate : SamplerTable → ℕ → ℕ
plain_rate t odid = elim (lookup odid t.plain) [ none ↦ 0 | some entry ↦ entry.rate ]

-- `markSampled`
unfoldable pub mark_sampled : SamplerTable → SamplerTable
mark_sampled t = if t.sampled then t else record t { sampled = true }

-- `rateInForce` of the domain
unfoldable pub rate_in_force : DomainState → SamplerTable → ℕ
unfolding scoped_rate
rate_in_force d t =
    if not (nat_eqb d.sampling_rate 0)
    then d.sampling_rate
    else (elim (scoped_rate t
        (record { kind = scope_domain; odid = 0; port = 0; value = d.odid })) [
          | some rate ↦ rate
          | none ↦ t.inherited
        ])

-- `inheritedCorrection`: a rate, and whether one is still owed
unfoldable pub inherited_correction : DomainState → SamplerTable → ℕ × Bool
unfolding rate_in_force
inherited_correction d t = let rate = rate_in_force d t in (rate, nat_eqb rate 0)

-- The device samples, unless the record names the cache that Cisco leaves unsampled.
unfoldable pub mark_named : SamplerTable → ℕ → Bool → SamplerTable
unfolding mark_sampled
mark_named t id is_sampler =
    if is_sampler && nat_eqb id unsampled_sampler_id then t else mark_sampled t

-- `correctionFor`: the table, marked where the record shows that the device samples, and the rate
-- with whether one is owed.
unfoldable pub correction_for : DomainState → SamplerTable → ℕ → Bool → SamplerTable × (ℕ × Bool)
correction_for d t id is_sampler =
    let t' = mark_named t id is_sampler in
    let (rate, decided) = declared_rate t' d.odid id is_sampler in
    (
      t',
      if decided
          then (rate, nat_eqb rate 0)
          else if is_sampler && nat_eqb id unsampled_sampler_id
          then (0, t'.declared_zero)
          else inherited_correction d t',
    )

-- `scopedCorrection`; `none` is its `false`.
unfoldable pub scoped_correction : DomainState → SamplerTable → TemplateRef → ℕ → Option ℕ
unfolding scoped_rate
scoped_correction d t tpl input_if =
    elim (scoped_rate t
      (record { kind = scope_template; odid = d.odid; port = tpl.port; value = tpl.id })) [
        | some rate ↦ some rate
        | none ↦
            if nat_eqb input_if 0
            then none
            else scoped_rate t
                (record { kind = scope_interface; odid = d.odid; port = 0; value = input_if })
      ]
