-- ===== src/Common/Equality.antt =====
-- Equality tests as an interface: Go's `==` on the comparable types that key the maps.
use Prim.Native.Nat.{ℕ}
use Prim.Native.String.{String}
use mathlib.Core.Path.{◌≡◌, refl}
use mathlib.Core.Logic.{◌↔◌}
use mathlib.Core.Bool.{Bool, true, false, ◌&&◌}
use mathlib.Core.List.{List, [], ◌∷◌}
use native.Mathlib.Omega.{arith}
use text.Mathlib.Text.{◌==◌ as str_eqb}
use text.Mathlib.TextEquality.{eq_iff}
use xflow_exporter.Common.Tests.{nat_eqb, nat_eqb_iff}

pub record Comparable {ℓ} (A : Type ℓ) : Type ℓ where
  pub equals : A → A → Bool
  pub equals_iff : (x y : A) → (equals x y ≡ true) ↔ (x ≡ y)

module _ {ℓ κ} {A : Type ℓ} {B : Type κ} ⦃ea : Comparable A⦄ ⦃eb : Comparable B⦄ where
  abbrev pair_eqb : A × B → A × B → Bool
  pair_eqb (a, b) (c, d) = ea.equals a c && eb.equals b d

  pub pair_eqb_iff : (p q : A × B) → (pair_eqb p q ≡ true) ↔ (p ≡ q)
  pair_eqb_iff (a, b) (c, d) = ground (arith, ea.equals_iff a c, eb.equals_iff b d)

  instance abbrev pub pair_eq : Comparable (A × B)
  pair_eq = record { equals = pair_eqb; equals_iff = pair_eqb_iff }

module _ {ℓ} {A : Type ℓ} ⦃e : Comparable A⦄ where
  abbrev list_eqb : List A → List A → Bool
  list_eqb [] [] = true
  list_eqb (x ∷ xs) (y ∷ ys) = e.equals x y && list_eqb xs ys
  list_eqb _ _ = false

  pub list_eqb_iff : (xs ys : List A) → (list_eqb xs ys ≡ true) ↔ (xs ≡ ys)
  list_eqb_iff [] [] = ground arith
  list_eqb_iff [] (y ∷ ys) = ground arith
  list_eqb_iff (x ∷ xs) [] = ground arith
  list_eqb_iff (x ∷ xs) (y ∷ ys) = ground (arith, e.equals_iff x y, list_eqb_iff xs ys)

  instance abbrev pub list_eq : Comparable (List A)
  list_eq = record { equals = list_eqb; equals_iff = list_eqb_iff }

module _ {ℓ} {A : Type ℓ} ⦃e : Comparable A⦄ where
  infix 50 ◌==◌
  abbrev pub ◌==◌ : A → A → Bool
  a == b = e.equals a b

  pub equals_refl : (a : A) → (a == a) ≡ true
  equals_refl a = (e.equals_iff a a).1 refl

-- The numbers and the string constants.
instance abbrev pub nat_eq : Comparable ℕ
nat_eq = record { equals = nat_eqb; equals_iff = nat_eqb_iff }

instance abbrev pub string_eq : Comparable String
string_eq = record { equals = str_eqb; equals_iff = eq_iff }
