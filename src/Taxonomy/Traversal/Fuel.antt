-- ===== src/Taxonomy/Traversal/Fuel.antt =====
-- The traversal ends: each round takes an id from the queue, and each id is pushed once.
use mathlib.Core.List.{append-nil, append_assoc}
use tea_tax_product.Prelude.{
  ℕ, zero, suc, ◌+◌, ◌≤◌, ◌<◌, String, ◌≡◌, refl, inl, inr, true, false, some, List, [], ◌∷◌, ◌++◌,
  arith, Bool-cases, Option-cases, length, length-append,
}
use tea_tax_product.Prelude.Enum.{
  includes, string_eq, In, includes-append, includes-cons, includes-nil,
}
use tea_tax_product.TaxSituation.{TaxSituation}
use tea_tax_product.Taxonomy.Types.{FormDefinition}
use tea_tax_product.Taxonomy.Traversal.{
  Search, find_form, expand_form, walk, seed, all_dependencies, walk_fuel, collect,
}
use tea_tax_product.Taxonomy.Traversal.Visits.{
  fresh, fresh-old, fresh-new, expand_form-missed, expand_form-found,
}

-- How many entries of a list are not required yet.
missing : List String → List String → ℕ
missing [] required = 0
missing (u ∷ us) required = elim (includes required u) [
  | true ↦ missing us required
  | false ↦ suc (missing us required)
]

missing-length : (us required : List String) → missing us required ≤ length us
unfolding missing
missing-length [] required = omega arith
missing-length (u ∷ us) required = ground (arith, missing-length us required)

missing-concat :
    (us required : List String) (d : String) → missing us (required ++ d ∷ []) ≤ missing us required
unfolding missing
missing-concat [] required d = omega arith
missing-concat (u ∷ us) required d =
    ground (arith, missing-concat us required d, includes-append required (d ∷ []) u)

-- An entry that becomes required is missing no more.
missing-concat_lt :
    (us required : List String) (d : String)
    → includes required d ≡ false
    → In d us
    → missing us (required ++ d ∷ []) < missing us required
unfolding missing
missing-concat_lt [] required d new h = ground (arith, includes-nil d)
missing-concat_lt (u ∷ us) required d new h = ground (
  arith,
  missing-concat_lt us required d,
  missing-concat us required d,
  includes-append required (d ∷ []) u,
  includes-cons d [] u,
  includes-nil u,
  includes-cons u us d,
  string_eq.test_iff u d,
  string_eq.test_iff d u,
)

abbrev AllIn : List String → List String → Type 0
AllIn [] us = Unit
AllIn (x ∷ xs) us = In x us × AllIn xs us

-- What is pushed is paid for by what is no longer missing.
missing-fresh :
    (us required ids : List String)
    → AllIn ids us
    → missing us (required ++ fresh required ids) + length (fresh required ids)
      ≤ missing us required
missing-fresh us required [] h = unfold fresh in rw append-nil (omega arith)
missing-fresh us required (id ∷ ids) h = elim (Bool-cases (includes required id)) [
  | inl old ↦ rw (fresh-old required ids id old) (missing-fresh us required ids h.1)
  | inr new ↦
      let later = missing-fresh us (required ++ id ∷ []) ids h.1 in
      let paid = missing-concat_lt us required id new h.0 in
      let paid_later = rw append_assoc at later in rw (fresh-new required ids id new) (omega arith)
]

AllIn-mono :
    (xs us vs : List String) → ((x : String) → In x us → In x vs) → AllIn xs us → AllIn xs vs
AllIn-mono [] us vs sub h = h
AllIn-mono (x ∷ xs) us vs sub h = (sub x h.0, AllIn-mono xs us vs sub h.1)

AllIn-refl : (xs : List String) → AllIn xs xs
AllIn-refl [] = tt
AllIn-refl (x ∷ xs) = (
  ground (arith, includes-cons x xs x, string_eq.test_iff x x),
  AllIn-mono xs xs (x ∷ xs) (λ y h. ground (arith, includes-cons x xs y)) (AllIn-refl xs),
)

dependencies-AllIn :
    (taxonomy : List FormDefinition) (id : String) (form : FormDefinition)
    → find_form taxonomy id ≡ some form
    → AllIn form.dependencies (all_dependencies taxonomy)
unfolding find_form all_dependencies
dependencies-AllIn [] id form h = cc
dependencies-AllIn (f ∷ fs) id form h = elim (Option-cases (find_form fs id)) [
  | inl missed ↦
      let same : f ≡ form = ground arith in
      rw (← same) (
        AllIn-mono f.dependencies f.dependencies (f.dependencies ++ all_dependencies fs)
          (λ x p. ground (arith, includes-append f.dependencies (all_dependencies fs) x))
          (AllIn-refl f.dependencies))
  | inr (g, found) ↦
      AllIn-mono form.dependencies (all_dependencies fs) (f.dependencies ++ all_dependencies fs)
        (λ x p. ground (arith, includes-append f.dependencies (all_dependencies fs) x))
        (dependencies-AllIn fs id form (ground arith))
]

module _ (taxonomy : List FormDefinition) where
  -- The ids still to be taken from the queue, now or later.
  abbrev pending : Search → ℕ
  pending w = length w.queue + missing (all_dependencies taxonomy) w.required

  expand_form-pending :
      (required rest : List String) (id : String)
      → let w : Search = record { required = required; queue = rest } in
        pending (expand_form taxonomy w id) ≤ pending w
  expand_form-pending required rest id = elim (Option-cases (find_form taxonomy id)) [
    | inl missed ↦ rw (expand_form-missed taxonomy required rest id missed) (omega arith)
    | inr (form, found) ↦ rw (expand_form-found taxonomy required rest id form found) (
        omega (
          arith,
          length-append rest (fresh required form.dependencies),
          missing-fresh (all_dependencies taxonomy) required form.dependencies
              (dependencies-AllIn taxonomy id form found),
        ))
  ]

  -- With more fuel than ids are pending, the walk returns.
  walk_total :
      (fuel : ℕ) (required queue : List String)
      → pending (record { required = required; queue = queue }) < fuel
      → (ids : List String) × (walk taxonomy fuel required queue ≡ some ids)
  unfolding walk
  walk_total zero required queue h = absurd (omega arith)
  walk_total (suc fuel) required [] h = (required, refl)
  walk_total (suc fuel) required (id ∷ rest) h =
      let w = expand_form taxonomy (record { required = required; queue = rest }) id in
      walk_total fuel w.required w.queue (omega (arith, expand_form-pending required rest id))

-- The fuel of `collect` is enough: the traversal returns, for any taxonomy, cyclic ones too.
pub collect_total :
    (s : TaxSituation) (taxonomy : List FormDefinition)
    → (ids : List String) × (collect s taxonomy ≡ some ids)
unfolding collect walk_fuel
collect_total s taxonomy =
    let w = seed s (record { required = []; queue = [] }) taxonomy in
    walk_total taxonomy (walk_fuel taxonomy w) w.required w.queue
      (omega (arith, missing-length (all_dependencies taxonomy) w.required))
