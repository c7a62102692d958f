-- ===== src/Decoder/Declarations/Sole.antt =====
-- The one rate that declarations agree on, `soleRateLocked` and the loop of `declaredRate` in
-- internal/decoder/templates.go. A rate of zero stands for none.
use xflow_exporter.Common.{
  Bool-cases, inl, inr, ℕ, ◌<◌, ◌≡◌, ◌≢◌, ◌↔◌, false, none, some, List, [], ◌∷◌, ◌++◌, All, refl,
  sym, ◌∙◌, Option-cases, arith, nat_eqb,
}
use mathlib.Core.Path.{subst}
use xflow_exporter.Decoder.Domain.{SamplerTable}
use xflow_exporter.Decoder.Declarations.{sole_loop, rate_or_zero, sole_rate, rates}

abbrev pub IsPositive : ℕ → Type 0
IsPositive rate = 0 < rate

sole_loop_agreed : (s : ℕ) (rs : List ℕ) → 0 < s → All (λ r. r ≡ s) rs → sole_loop s rs ≡ some s
unfolding sole_loop
sole_loop_agreed s [] h a = refl
sole_loop_agreed s (r ∷ rs) h (e, a) = ground (arith, sole_loop_agreed r rs (omega arith) (rw e a))

sole_loop_same :
    (s x : ℕ) (rs : List ℕ) {r : ℕ}
    → x ≡ s
    → sole_loop s (x ∷ rs) ≡ some r
    → sole_loop x rs ≡ some r
unfolding sole_loop
sole_loop_same s x rs same e = ground arith

sole_loop_other :
    (s x : ℕ) (rs : List ℕ) → 0 < s → nat_eqb x s ≡ false → sole_loop s (x ∷ rs) ≡ none
unfolding sole_loop
sole_loop_other s x rs h other = ground arith

sole_loop_reads :
    (s : ℕ) (rs : List ℕ) (r : ℕ)
    → 0 < s
    → All IsPositive rs
    → sole_loop s rs ≡ some r
    → (r ≡ s) × All (λ x. x ≡ s) rs
unfolding sole_loop
sole_loop_reads s [] r h p e = ground arith
sole_loop_reads s (x ∷ rs) r h (px, p) e = elim (Bool-cases (nat_eqb x s)) [
  | inl same ↦
      let x-s : x ≡ s = ground arith in
      let (hr, ha) = sole_loop_reads s rs r h p (rw x-s at (sole_loop_same s x rs x-s e)) in
      (hr, (x-s, ha))
  | inr other ↦ cc (sole_loop_other s x rs h other, e)
]

-- A list of positive rates holds one rate, and that rate everywhere.
abbrev pub AgreesOn : ℕ → List ℕ → Type 0
AgreesOn r rs = (rs ≢ []) × All (λ x. x ≡ r) rs

sole_loop_first :
    (x r : ℕ) (rs : List ℕ)
    → 0 < x
    → 0 < r
    → All IsPositive rs
    → rate_or_zero (sole_loop x rs) ≡ r
    → (x ≡ r) × All (λ y. y ≡ r) rs
sole_loop_first x r rs hx h p e = elim (Option-cases (sole_loop x rs)) [
  | inl differ ↦ absurd (omega (arith, rw differ at e))
  | inr (s, agree) ↦
      let (s-x, all_x) = sole_loop_reads x rs s hx p agree in
      let x-r : x ≡ r = sym s-x ∙ rw agree at e in (x-r, subst (λ y. All (λ z. z ≡ y) rs) x-r all_x)
]

pub sole_loop_zero :
    (rs : List ℕ) (r : ℕ)
    → All IsPositive rs
    → 0 < r
    → (rate_or_zero (sole_loop 0 rs) ≡ r) ↔ AgreesOn r rs
unfolding sole_loop
sole_loop_zero [] r p h = (λ e. absurd (omega arith), λ a. absurd (a.0 refl))
sole_loop_zero (x ∷ rs) r (px, p) h = (
  λ e. (λ empty. cc, sole_loop_first x r rs px h p e),
  λ (nonempty, (x-r, a)).
      rw (sole_loop_agreed x rs px (subst (λ y. All (λ z. z ≡ y) rs) (sym x-r) a)) x-r,
)

pub sole_loop_pos :
    (rs : List ℕ) (s : ℕ) → All IsPositive rs → rs ≢ [] → sole_loop 0 rs ≡ some s → 0 < s
unfolding sole_loop
sole_loop_pos [] s p nonempty e = absurd (nonempty refl)
sole_loop_pos (x ∷ rs) s (px, p) nonempty e = omega (arith, (sole_loop_reads x rs s px p e).0)

IsPositive-append :
    (rs more : List ℕ) → All IsPositive rs → All IsPositive more → All IsPositive (rs ++ more)
IsPositive-append [] more none_here rest = rest
IsPositive-append (r ∷ rs) more (first, others) rest =
    (first, IsPositive-append rs more others rest)

-- Where no declaration is of rate zero, the device's one rate is `r` exactly where something is
-- declared, with or without a sampler's name, and every declaration carries `r`.
pub sole_rate_iff :
    (t : SamplerTable) (r : ℕ)
    → All IsPositive (rates t.named)
    → All IsPositive (rates t.plain)
    → 0 < r
    → (sole_rate t ≡ r) ↔ AgreesOn r (rates t.named ++ rates t.plain)
unfolding sole_rate
sole_rate_iff t r hn hp h =
    sole_loop_zero (rates t.named ++ rates t.plain) r
      (IsPositive-append (rates t.named) (rates t.plain) hn hp) h
