-- ===== src/Tests/Validation.antt =====
-- The validation of the sample situations.
use tea_tax_product.Prelude.{
  ◌≡◌, refl, ◌≤◌, true, false, not, ◌||◌, any, map, [], ◌∷◌, ◌++◌, List, String, ◌+◌,
}
use tea_tax_product.Prelude.Enum.{In, string_eq}
use tea_tax_product.Tests.Samples.{freelancer, no_dates}
use tea_tax_product.Rules.{validation_rules}
use tea_tax_product.Rules.Helpers.{has_income_type}
use tea_tax_product.Rules.Missing.{
  check_missing_schedule_c, check_missing_schedule_se, check_missing_schedule_d,
  check_missing_schedule_e,
}
use tea_tax_product.Rules.Contradiction.{
  check_contradiction_single_with_dependent_spouse,
  check_contradiction_hoh_without_qualifying_dependent, check_contradiction_mfs_with_eitc,
}
use tea_tax_product.Rules.Implausible.{check_implausible_negative_withholding}
use tea_tax_product.Rules.IncompleteChain.{check_incomplete_chain_schedule_d_without_form_8949}
use tea_tax_product.Rules.Threshold.{check_threshold_eitc_above_qualifying_agi}
use tea_tax_product.Validation.Completeness.{compute_completeness}
use tea_tax_product.Validation.Completeness.Bounds.{compute_completeness_bounds}
use tea_tax_product.Validation.Confidence.{uncertainty_warnings}
use tea_tax_product.Validation.Engine.{validate}
use tea_tax_product.Validation.Engine.Laws.{
  errors_of, warnings_of, is_violated_error, validate_issues, validate_valid, validate_valid_checks,
}
use tea_tax_product.Validation.Chains.{schedule_c-forms_required}

validate_issues_example :
    ((validate no_dates freelancer).errors ≡ errors_of freelancer (validation_rules no_dates))
    × ((validate no_dates freelancer).warnings
        ≡ warnings_of freelancer (validation_rules no_dates) ++ uncertainty_warnings freelancer)
validate_issues_example = validate_issues no_dates freelancer

validate_valid_example :
    (validate no_dates freelancer).valid
    ≡ not (any (is_violated_error freelancer) (validation_rules no_dates))
validate_valid_example = validate_valid no_dates freelancer

validate_valid_checks_example :
    (validate no_dates freelancer).valid
    ≡ not (
        check_missing_schedule_c freelancer
        || check_missing_schedule_se freelancer
        || check_missing_schedule_d freelancer
        || check_missing_schedule_e freelancer
        || check_contradiction_single_with_dependent_spouse freelancer
        || check_contradiction_hoh_without_qualifying_dependent freelancer
        || check_contradiction_mfs_with_eitc freelancer
        || check_implausible_negative_withholding freelancer
        || check_incomplete_chain_schedule_d_without_form_8949 freelancer
        || check_threshold_eitc_above_qualifying_agi freelancer)
validate_valid_checks_example = validate_valid_checks no_dates freelancer

compute_completeness_bounds_example :
    (6250 ≤ compute_completeness freelancer) × (compute_completeness freelancer ≤ 10000)
compute_completeness_bounds_example =
    compute_completeness_bounds freelancer (omega tea_tax_product.Prelude.arith)

freelancer-missing :
    (check_missing_schedule_c freelancer || check_missing_schedule_se freelancer) ≡ true
unfolding check_missing_schedule_c has_income_type any
    tea_tax_product.TaxSituation.Unions.IncomeStreamType-discrete
freelancer-missing = refl

schedule_c-forms_required_example :
    In "schedule-c" (validate no_dates freelancer).forms_required
    × In "schedule-se" (validate no_dates freelancer).forms_required
schedule_c-forms_required_example = schedule_c-forms_required no_dates freelancer freelancer-missing

freelancer-missing_e : check_missing_schedule_e freelancer ≡ true
unfolding check_missing_schedule_e has_income_type any
    tea_tax_product.TaxSituation.Unions.IncomeStreamType-discrete
freelancer-missing_e = refl
