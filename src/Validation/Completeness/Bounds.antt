-- ===== src/Validation/Completeness/Bounds.antt =====
-- What the completeness score counts, and its bounds.
use tea_tax_product.Prelude.{
  ℕ, ◌+◌, ◌≤◌, ◌≡◌, refl, ap, Bool, true, false, Option, none, some, List, [], ◌∷◌, arith, is_empty,
  if◌then◌else◌, not,
}
use tea_tax_product.Prelude.Int.{pos, negsuc, ◌+ℤ◌, ◌≤ℤ◌, int_laws}
use tea_tax_product.Prelude.Number.{Number, whole}
use tea_tax_product.TaxSituation.{TaxSituation, IncomeStream, PriorYearContext}
use tea_tax_product.TaxSituation.Values.{
  array, or_null, income_stream_value, prior_year_context_value, state_residency_value,
  confidence_scores_value, situation_metadata_value,
}
use tea_tax_product.Js.{str}
use tea_tax_product.TaxSituation.Unions.{FilingStatus, single}
use tea_tax_product.TaxSituation.Tags.{filing_status_tag}
use tea_tax_product.Validation.Completeness.{
  required_top_level_fields, count_populated, is_populated, round_score, compute_completeness,
}

abbrev pub is_some {ℓ} : {A : Type ℓ} → Option A → Bool
is_some none = false
is_some (some a) = true

filing_status_populated :
    (t : FilingStatus) → is_populated (some (str (filing_status_tag t))) ≡ true
unfolding is_populated filing_status_tag
filing_status_populated single = refl
filing_status_populated _ = refl

income_streams_populated :
    (xs : List IncomeStream)
    → is_populated (some (array income_stream_value xs)) ≡ not (is_empty xs)
unfolding is_populated array
income_streams_populated [] = refl
income_streams_populated (x ∷ xs) = refl

prior_year_populated :
    (p : Option PriorYearContext)
    → is_populated (some (or_null prior_year_context_value p)) ≡ is_some p
unfolding is_populated or_null prior_year_context_value
prior_year_populated none = refl
prior_year_populated (some c) = refl

-- Five of the seven required fields are always there.
count_populated_lem :
    (s : TaxSituation)
    → count_populated s required_top_level_fields
      ≡ 5
        + (if is_empty s.income_streams then 0 else 1)
        + (if is_some s.prior_year_context then 1 else 0)
unfolding count_populated state_residency_value confidence_scores_value situation_metadata_value
count_populated_lem s =
    rw
      (
        filing_status_populated s.filing_status,
        income_streams_populated s.income_streams,
        prior_year_populated s.prior_year_context,
      )
      (ground arith)

round_score_bound : (n : Number) → round_score n ≤ 10000
unfolding round_score
round_score_bound (pos n) = ground arith
round_score_bound (negsuc n) = omega arith

round_score_mono : (a b : Number) → a ≤ℤ b → round_score a ≤ round_score b
unfolding round_score
round_score_mono (pos a) (pos b) h = ground arith
round_score_mono (negsuc a) b h = omega arith
round_score_mono (pos a) (negsuc b) h = ground arith

-- A nonnegative share leaves the sum at or above the counted fields.
whole_le : (k n : ℕ) (d : Number) → k ≤ n → pos 0 ≤ℤ d → whole k ≤ℤ whole n +ℤ d
whole_le k n d h g = omega int_laws

round_score-five : (n : ℕ) (d : Number) → 5 ≤ n → pos 0 ≤ℤ d → 6250 ≤ round_score (whole n +ℤ d)
unfolding round_score
round_score-five n d h g = round_score_mono (whole 5) (whole n +ℤ d) (whole_le 5 n d h g)

-- The completeness score is the rounded eighth of five, one for a non-empty list of income streams, one
-- for a prior year context, and the documents' share.
pub compute_completeness_lem :
    (s : TaxSituation)
    → compute_completeness s
      ≡ round_score (
          whole (
            5
            + (if is_empty s.income_streams then 0 else 1)
            + (if is_some s.prior_year_context then 1 else 0))
          +ℤ s.documentation_completeness)
unfolding compute_completeness
compute_completeness_lem s =
    ap (λ n. round_score (whole n +ℤ s.documentation_completeness)) (count_populated_lem s)

-- Where the documents' share is not negative the completeness score lies between 5 / 8 and 1: five of its
-- seven required fields can never be missing.
pub compute_completeness_bounds :
    (s : TaxSituation)
    → pos 0 ≤ℤ s.documentation_completeness
    → (6250 ≤ compute_completeness s) × (compute_completeness s ≤ 10000)
compute_completeness_bounds s h = rw (compute_completeness_lem s) (
  round_score-five
      (5
        + (if is_empty s.income_streams then 0 else 1)
        + (if is_some s.prior_year_context then 1 else 0))
      s.documentation_completeness (omega arith) h,
  round_score_bound _,
)
