-- ===== src/Validation/Engine.antt =====
-- `validate` of validation-engine.ts.
pub mod Laws
use text.Mathlib.Text.{starts_with}
use tea_tax_product.Prelude.{
  ℕ, String, Bool, true, false, Option, none, some, List, [], ◌∷◌, ◌++◌, is_empty, if◌then◌else◌,
}
use tea_tax_product.Prelude.Enum.{◌===◌}
use tea_tax_product.Prelude.Number.{Number}
use tea_tax_product.TaxSituation.{TaxSituation, ValidationIssue, ValidationResult}
use tea_tax_product.TaxSituation.Unions.{error, validation_severity_eq}
use tea_tax_product.Rules.{validation_rules}
use tea_tax_product.Rules.Types.{ValidationRuleDefinition}
use tea_tax_product.Taxonomy.Traversal.{required_forms}
use tea_tax_product.Validation.Completeness.{compute_completeness}
use tea_tax_product.Validation.Confidence.{uncertainty_warnings}

unfoldable pub rule_to_field_path : String → String
rule_to_field_path rule_id =
    if starts_with rule_id "MISSING_SCHEDULE_C"
    then "incomeStreams"
    else if starts_with rule_id "MISSING_SCHEDULE_SE"
    then "incomeStreams"
    else if starts_with rule_id "MISSING_SCHEDULE_D"
    then "incomeStreams"
    else if starts_with rule_id "MISSING_SCHEDULE_E"
    then "incomeStreams"
    else if starts_with rule_id "CONTRADICTION_SINGLE_WITH_DEPENDENT_SPOUSE"
    then "dependents"
    else if starts_with rule_id "CONTRADICTION_HOH_WITHOUT_QUALIFYING_DEPENDENT"
    then "dependents"
    else if starts_with rule_id "CONTRADICTION_MFS_WITH_EITC"
    then "credits"
    else if starts_with rule_id "IMPLAUSIBLE_NEGATIVE_AGI"
    then "incomeStreams"
    else if starts_with rule_id "IMPLAUSIBLE_W2_WAGES_OVER_10M"
    then "incomeStreams[].w2Data.wages"
    else if starts_with rule_id "IMPLAUSIBLE_NEGATIVE_WITHHOLDING"
    then "incomeStreams[].w2Data.federalTaxWithheld"
    else if starts_with rule_id "IMPLAUSIBLE_DEPENDENT_OVER_24_FOR_CTC"
    then "dependents[].dateOfBirth"
    else if starts_with rule_id "INCOMPLETE_CHAIN_SCHEDULE_D_WITHOUT_FORM_8949"
    then "incomeStreams[].form1099Data"
    else if starts_with rule_id "INCOMPLETE_CHAIN_ITEMIZED_WITHOUT_SCHEDULE_A"
    then "deductions"
    else if starts_with rule_id "INCOMPLETE_CHAIN_SCHEDULE_C_WITHOUT_BUSINESS_INCOME"
    then "deductions"
    else if starts_with rule_id "THRESHOLD_FREE_FILE_AGI_EXCEEDED"
    then "incomeStreams"
    else if starts_with rule_id "THRESHOLD_EITC_ABOVE_QUALIFYING_AGI"
    then "credits"
    else if starts_with rule_id "THRESHOLD_SE_NET_BELOW_400_WITH_SE"
    then "incomeStreams"
    else "situation"

unfoldable pub run_rule : ValidationRuleDefinition → TaxSituation → Option ValidationIssue
unfolding rule_to_field_path
run_rule rule s =
    if rule.check s
    then some (record {
      code = rule.id;
      severity = rule.severity;
      field = rule_to_field_path rule.id;
      message = rule.message;
      suggested_action = some rule.suggested_action;
    })
    else none

-- The two lists that the loop over the rules pushes to.
pub record Issues : Type 0 where
  pub errors : List ValidationIssue
  pub warnings : List ValidationIssue

unfoldable pub push_issue : Issues → Option ValidationIssue → Issues
push_issue i none = i
push_issue i (some issue) =
    if issue.severity === error
    then record i { errors = i.errors ++ issue ∷ [] }
    else record i { warnings = i.warnings ++ issue ∷ [] }

unfoldable pub run_rules : Issues → List ValidationRuleDefinition → TaxSituation → Issues
unfolding push_issue run_rule
run_rules i [] s = i
run_rules i (rule ∷ rules) s = run_rules (push_issue i (run_rule rule s)) rules s

-- `birth_year` is the date parser of the runtime, which one of the rules calls.
unfoldable pub validate : (String → Option Number) → TaxSituation → ValidationResult
unfolding run_rules
validate birth_year s =
    let i = run_rules (record { errors = []; warnings = [] }) (validation_rules birth_year) s in
    record {
      valid = is_empty i.errors;
      errors = i.errors;
      warnings = i.warnings ++ uncertainty_warnings s;
      completeness = compute_completeness s;
      forms_required = required_forms s;
    }
