-- ===== src/Prelude/Enum.antt =====
-- Equality tests, as instances: `===` on string-literal unions (data types without fields), strings
-- and numbers.
use Prim.Native.String.{String}
use mathlib.Core.Path.{◌≡◌, refl}
use mathlib.Core.Logic.{◌↔◌}
use mathlib.Core.List.{[], ◌∷◌, ◌++◌}
use mathlib.Core.Bool.{Bool, true, false, ◌||◌}
use mathlib.Core.List.{List}
use native.Mathlib.Omega.{arith}
use text.Mathlib.Text.{◌==◌ as str_eq}
use text.Mathlib.TextEquality.{eq_iff}
use tea_tax_product.Prelude.Lists.{any, any-append}

pub record StrictEq {ℓ} (A : Type ℓ) : Type ℓ where
  pub test : A → A → Bool
  pub test_iff : (x y : A) → (test x y ≡ true) ↔ (x ≡ y)

infix 50 ◌===◌
abbrev pub ◌===◌ {ℓ} : {A : Type ℓ} ⦃e : StrictEq A⦄ → A → A → Bool
◌===◌ ⦃e⦄ = e.test

abbrev pub decides {ℓ} : {A : Type ℓ} → Dec A → Bool
decides (yes a) = true
decides (no n) = false

pub decides_iff {ℓ} : {A : Type ℓ} (d : Dec A) → (decides d ≡ true) ↔ A
decides_iff (yes a) = (λ _. a, λ _. refl)
decides_iff (no n) = (λ h. cc, λ a. absurd (n a))

-- The instance of a type whose equality is decided.
abbrev pub discrete_eq {ℓ} : {A : Type ℓ} → Discrete A → StrictEq A
discrete_eq d = record { test = λ a b. decides (d a b); test_iff = λ a b. decides_iff (d a b) }

instance abbrev pub string_eq : StrictEq String
string_eq = record { test = str_eq; test_iff = eq_iff }

module _ {ℓ} {A : Type ℓ} ⦃e : StrictEq A⦄ where
  -- `xs.includes(x)`
  unfoldable pub includes : List A → A → Bool
  unfolding any
  includes xs x = any (λ y. y === x) xs

  abbrev pub In : A → List A → Type 0
  In x xs = includes xs x ≡ true

  -- No element stands twice.
  abbrev pub Distinct : List A → Type 0
  Distinct [] = Unit
  Distinct (x ∷ xs) = (includes xs x ≡ false) × Distinct xs

module _ {ℓ} {A : Type ℓ} ⦃e : StrictEq A⦄ where
  pub includes-append :
      (xs ys : List A) (x : A) → includes (xs ++ ys) x ≡ (includes xs x || includes ys x)
  unfolding includes
  includes-append xs ys x = any-append (λ y. y === x) xs ys

  pub includes-cons :
      (y : A) (ys : List A) (x : A) → includes (y ∷ ys) x ≡ (y === x || includes ys x)
  unfolding includes
  includes-cons y ys x = refl

  pub includes-nil : (x : A) → includes [] x ≡ false
  unfolding includes
  includes-nil x = refl

  pub Distinct-concat :
      (xs : List A) (y : A) → Distinct xs → includes xs y ≡ false → Distinct (xs ++ y ∷ [])
  Distinct-concat [] y d h = (includes-nil y, tt)
  Distinct-concat (x ∷ xs) y d h = ground (
    arith,
    Distinct-concat xs y d.1,
    includes-append xs (y ∷ []) x,
    includes-cons x xs y,
    includes-cons y [] x,
    includes-nil x,
    e.test_iff x y,
    e.test_iff y x,
  )
