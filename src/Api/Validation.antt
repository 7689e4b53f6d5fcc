-- ===== src/Api/Validation.antt =====
-- apps/server/src/api/validation.ts: the validators that are compiled once for each schema object. A schema
-- object stands for its identity, by which the WeakMap is keyed; ajv.compile is a parameter.
use tea_tax_product.Prelude.{
  ℕ, ◌≡◌, refl, ◌+◌, Option, none, some, List, [], ◌∷◌, arith, if◌then◌else◌, ◌==◌, any,
  Option-cases, inl, inr,
}

-- The cache, and the schemas that were compiled, the last one first.
pub record Validators {ℓ} (F : Type ℓ) : Type ℓ where
  pub cache : List (ℕ × F)
  pub compiled : List ℕ

module _ {ℓ} {F : Type ℓ} where
  unfoldable pub cached : List (ℕ × F) → ℕ → Option F
  cached [] schema = none
  cached ((k, f) ∷ rest) schema =
      let later = cached rest schema in if k == schema then some f else later

  -- The validator, and what has become of the cache after the call.
  unfoldable pub get_compiled_validator : (ℕ → F) → ℕ → Validators F → F × Validators F
  unfolding cached
  get_compiled_validator compile schema vs = elim (cached vs.cache schema) [
    | some f ↦ (f, vs)
    | none ↦ (
      compile schema,
      record { cache = (schema, compile schema) ∷ vs.cache; compiled = schema ∷ vs.compiled },
    )
  ]

  -- After the schemas of a list have been used, the last of them first, from an empty cache.
  unfoldable pub after_uses : (ℕ → F) → List ℕ → Validators F
  unfolding get_compiled_validator
  after_uses compile [] = record { cache = []; compiled = [] }
  after_uses compile (schema ∷ earlier) =
      (get_compiled_validator compile schema (after_uses compile earlier)).1

-- How often a schema was compiled.
unfoldable pub compilations : List ℕ → ℕ → ℕ
compilations [] schema = 0
compilations (k ∷ rest) schema = (if k == schema then 1 else 0) + compilations rest schema

module _ {ℓ} {F : Type ℓ} (compile : ℕ → F) where
  -- A schema is in the cache, with its compiled validator, exactly when it has been used.
  cached-after_uses :
      (used : List ℕ) (schema : ℕ)
      → cached (after_uses compile used).cache schema
        ≡ (if any (λ k. k == schema) used then some (compile schema) else none)
  unfolding cached after_uses get_compiled_validator any
  cached-after_uses [] schema = refl
  cached-after_uses (s ∷ used) schema =
      elim (Option-cases (cached (after_uses compile used).cache s)) [
        | inl e ↦
            rw (e, after_uses, get_compiled_validator) ground (arith, cached-after_uses used schema)
        | inr p ↦
            rw (p.1, after_uses, get_compiled_validator) ground
              (arith, p.1, cached-after_uses used schema, cached-after_uses used s)
      ]

  -- A schema is compiled at its first use, and at no other.
  compilations-after_uses :
      (used : List ℕ) (schema : ℕ)
      → compilations (after_uses compile used).compiled schema
        ≡ (if any (λ k. k == schema) used then 1 else 0)
  unfolding compilations after_uses get_compiled_validator any
  compilations-after_uses [] schema = refl
  compilations-after_uses (s ∷ used) schema =
      elim (Option-cases (cached (after_uses compile used).cache s)) [
        | inl e ↦
            rw (e, after_uses, get_compiled_validator) ground
              (arith, e, compilations-after_uses used schema, cached-after_uses used s)
        | inr p ↦
            rw (p.1, after_uses, get_compiled_validator) ground
              (arith, p.1, compilations-after_uses used schema, cached-after_uses used s)
      ]

  -- After any uses from an empty cache and one more of the schema, the validator that it gets is the one that compiling
  -- it gives, and the schema has been compiled exactly once.
  pub get_compiled_validator_lem :
      (used : List ℕ) (schema : ℕ)
      → ((get_compiled_validator compile schema (after_uses compile used)).0 ≡ compile schema)
        × (compilations
              (get_compiled_validator compile schema (after_uses compile used)).1.compiled
              schema
            ≡ 1)
  unfolding get_compiled_validator after_uses any
  get_compiled_validator_lem used schema = (
    elim (Option-cases (cached (after_uses compile used).cache schema)) [
      | inl e ↦ rw (e, get_compiled_validator) refl
      | inr p ↦ rw (p.1, get_compiled_validator) ground (arith, p.1, cached-after_uses used schema)
    ],
    ground (arith, compilations-after_uses (schema ∷ used) schema),
  )
