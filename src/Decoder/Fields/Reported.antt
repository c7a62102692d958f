-- ===== src/Decoder/Fields/Reported.antt =====
-- Which elements internal/decoder/fields.go consumes, and that it touches nothing for the others.
use xflow_exporter.Common.{
  ℕ, ◌≡◌, refl, Bool, true, false, ◌&&◌, ◌||◌, List, [], ◌∷◌, nat_eqb, arith, Bool-cases, ◌⊎◌, inl,
  inr,
}
use xflow_exporter.Flow.{Record}
use xflow_exporter.Decoder.Fields.{
  FieldState, Applied, apply_section_field, apply_unsectioned_field, apply_rare_field,
  apply_counter, apply_endpoint, apply_context, apply_field,
}

abbrev pub occurs : ℕ → List ℕ → Bool
occurs x [] = false
occurs x (y ∷ rest) = nat_eqb x y || occurs x rest

-- The elements of the data records that the collector reads.
abbrev pub read_elements : List ℕ
read_elements =
    1 ∷ 2 ∷ 3 ∷ 4 ∷ 5 ∷ 6 ∷ 7 ∷ 8 ∷ 9 ∷ 10 ∷ 11 ∷ 12 ∷ 13 ∷ 14 ∷ 16 ∷ 17 ∷ 21 ∷ 22 ∷ 23 ∷ 24 ∷ 27
    ∷ 28 ∷ 29 ∷ 30 ∷ 48 ∷ 61 ∷ 95 ∷ 96 ∷ 104 ∷ 150 ∷ 151 ∷ 152 ∷ 153 ∷ 160 ∷ 195 ∷ 302 ∷ 312 ∷ 313
    ∷ 315 ∷ 56701 ∷ []

-- Either the element is read, or nothing changes.
abbrev pub IsReadOrIgnored : Applied → Record → FieldState → Type 0
IsReadOrIgnored (r', s', read) r s = (read ≡ true) ⊎ ((r' ≡ r) × (s' ≡ s))

rare_lem :
    (r : Record) (s : FieldState) (f : ℕ) (value : List ℕ)
    → let a = apply_rare_field r s f value in
      (a.2
        ≡ occurs f
            (104 ∷ 315 ∷ 313 ∷ 312 ∷ 22 ∷ 21 ∷ 160 ∷ 150 ∷ 151 ∷ 152 ∷ 153 ∷ 96 ∷ 56701 ∷ []))
      × IsReadOrIgnored a r s
unfolding apply_rare_field apply_section_field apply_unsectioned_field
rare_lem r s f value = (ground arith, ground arith)

context_lem :
    (r : Record) (s : FieldState) (f : ℕ) (value : List ℕ) (others : Applied)
    → let a = apply_context r s f value others in
      (a.2 ≡ (occurs f (9 ∷ 29 ∷ 13 ∷ 30 ∷ 10 ∷ 14 ∷ 16 ∷ 17 ∷ 95 ∷ 48 ∷ 302 ∷ []) || others.2))
      × (IsReadOrIgnored others r s → IsReadOrIgnored a r s)
unfolding apply_context
context_lem r s f value others = (ground arith, λ h. ground arith)

endpoint_lem :
    (r : Record) (s : FieldState) (f : ℕ) (value : List ℕ) (others : Applied)
    → let a = apply_endpoint r s f value others in
      (a.2 ≡ (occurs f (7 ∷ 11 ∷ 8 ∷ 12 ∷ 27 ∷ 28 ∷ []) || others.2))
      × (IsReadOrIgnored others r s → IsReadOrIgnored a r s)
unfolding apply_endpoint
endpoint_lem r s f value others = (ground arith, λ h. ground arith)

counter_lem :
    (r : Record) (s : FieldState) (f : ℕ) (value : List ℕ) (others : Applied)
    → let a = apply_counter r s f value others in
      (a.2 ≡ (occurs f (1 ∷ 2 ∷ 3 ∷ 23 ∷ 24 ∷ 4 ∷ 61 ∷ 5 ∷ 195 ∷ 6 ∷ []) || others.2))
      × (IsReadOrIgnored others r s → IsReadOrIgnored a r s)
unfolding apply_counter
counter_lem r s f value others = (ground arith, λ h. ground arith)

same_elements :
    (f : ℕ)
    → (occurs f (1 ∷ 2 ∷ 3 ∷ 23 ∷ 24 ∷ 4 ∷ 61 ∷ 5 ∷ 195 ∷ 6 ∷ [])
        || (occurs f (7 ∷ 11 ∷ 8 ∷ 12 ∷ 27 ∷ 28 ∷ [])
            || (occurs f (9 ∷ 29 ∷ 13 ∷ 30 ∷ 10 ∷ 14 ∷ 16 ∷ 17 ∷ 95 ∷ 48 ∷ 302 ∷ [])
                || occurs f (
                    104 ∷ 315 ∷ 313 ∷ 312 ∷ 22 ∷ 21 ∷ 160 ∷ 150 ∷ 151 ∷ 152 ∷ 153 ∷ 96 ∷ 56701
                    ∷ []))))
      ≡ occurs f read_elements
same_elements f = ground arith

-- Whether an element is consumed depends on its numbers alone, never on its value or on what was read
-- before it; and an element that is not consumed changes neither the record nor the state.
pub apply_field_lem :
    (r : Record) (s : FieldState) (field_type enterprise : ℕ) (value : List ℕ)
    → let a = apply_field r s field_type enterprise value in
      (a.2 ≡ (nat_eqb enterprise 0 && occurs field_type read_elements)) × IsReadOrIgnored a r s
unfolding apply_field
apply_field_lem r s f enterprise value = elim (Bool-cases (nat_eqb enterprise 0)) [
  | inr private ↦ rw private (refl, inr (refl, refl))
  | inl iana ↦
      let (rare, rare') = rare_lem r s f value in
      let c = apply_context r s f value (apply_rare_field r s f value) in
      let (context, context') = context_lem r s f value (apply_rare_field r s f value) in
      let (endpoint, endpoint') = endpoint_lem r s f value c in
      let (counter, counter') = counter_lem r s f value (apply_endpoint r s f value c) in
      rw iana (
        rw (counter, endpoint, context, rare) (same_elements f),
        counter' (endpoint' (context' rare')),
      )
]
