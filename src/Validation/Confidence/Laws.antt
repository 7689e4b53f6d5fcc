-- ===== src/Validation/Confidence/Laws.antt =====
-- Which fields the confidence warnings name.
use tea_tax_product.Prelude.{
  String, ◌≡◌, refl, inl, inr, Bool, List, [], ◌∷◌, ◌++◌, map, filter, if◌then◌else◌, Bool-cases,
}
use tea_tax_product.Prelude.Number.{Number}
use tea_tax_product.TaxSituation.{TaxSituation}
use tea_tax_product.Validation.Confidence.{
  is_below_half, is_below_two_fifths, field_warning, field_warnings, overall_warning,
  uncertainty_warnings,
}

abbrev pub is_uncertain : String × Number → Bool
is_uncertain entry = is_below_two_fifths entry.1

abbrev pub uncertain_fields : List (String × Number) → List String
uncertain_fields scores = map (λ entry. entry.0) (filter is_uncertain scores)

field_warnings-fields :
    (scores : List (String × Number))
    → map (λ issue. issue.field) (field_warnings scores) ≡ uncertain_fields scores
unfolding field_warnings field_warning filter
field_warnings-fields [] = refl
field_warnings-fields ((path, score) ∷ rest) = elim (Bool-cases (is_below_two_fifths score)) [
  | inl h ↦ rw (h, field_warnings-fields rest) refl
  | inr h ↦ rw (h, field_warnings-fields rest) refl
]

-- The confidence warnings name the overall score first, when it is below 0.5, and then exactly the fields
-- whose score is below 0.4, in their order.
pub uncertainty_warnings-fields :
    (s : TaxSituation)
    → map (λ issue. issue.field) (uncertainty_warnings s)
      ≡ (if is_below_half s.confidence_scores.overall then "confidenceScores.overall" ∷ [] else [])
        ++ uncertain_fields s.confidence_scores.per_field
unfolding uncertainty_warnings overall_warning
uncertainty_warnings-fields s = elim (Bool-cases (is_below_half s.confidence_scores.overall)) [
  | inl h ↦ rw (h, field_warnings-fields s.confidence_scores.per_field) refl
  | inr h ↦ rw (h, field_warnings-fields s.confidence_scores.per_field) refl
]
