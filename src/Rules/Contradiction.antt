-- ===== src/Rules/Contradiction.antt =====
-- The rules of category CONTRADICTION in validation-rules.ts: filing status and eligibility contradictions.
use tea_tax_product.Prelude.{Bool, false, not, ◌||◌, ◌==◌, any, length, if◌then◌else◌}
use tea_tax_product.Prelude.Enum.{◌===◌, string_eq}
use tea_tax_product.TaxSituation.{TaxSituation}
use tea_tax_product.Js.{lower_is}
use tea_tax_product.Rules.Types.{ValidationRuleDefinition, contradiction}
use tea_tax_product.Rules.Helpers.{has_credit_type}
use tea_tax_product.TaxSituation.Unions.{
  error, filing_status_eq, income_stream_type_eq, deduction_type_eq, credit_type_eq, single,
  head_of_household, married_filing_separately, earned_income,
}

unfoldable pub check_contradiction_single_with_dependent_spouse : TaxSituation → Bool
check_contradiction_single_with_dependent_spouse s =
    if not (s.filing_status === single)
    then false
    else any
        (λ d.
          lower_is d.relationship "spouse"
          || lower_is d.relationship "husband"
          || lower_is d.relationship "wife")
        s.dependents

abbrev pub contradiction_single_with_dependent_spouse : ValidationRuleDefinition
contradiction_single_with_dependent_spouse = record {
  id = "CONTRADICTION_SINGLE_WITH_DEPENDENT_SPOUSE";
  severity = error;
  category = contradiction;
  check = check_contradiction_single_with_dependent_spouse;
  message = "Filing status is 'single' but a dependent with a spouse relationship is claimed.";
  suggested_action =
      "Change filing status to 'married_filing_jointly', 'married_filing_separately', or remove the spousal dependent.";
}

unfoldable pub check_contradiction_hoh_without_qualifying_dependent : TaxSituation → Bool
check_contradiction_hoh_without_qualifying_dependent s =
    if not (s.filing_status === head_of_household) then false else length s.dependents == 0

abbrev pub contradiction_hoh_without_qualifying_dependent : ValidationRuleDefinition
contradiction_hoh_without_qualifying_dependent = record {
  id = "CONTRADICTION_HOH_WITHOUT_QUALIFYING_DEPENDENT";
  severity = error;
  category = contradiction;
  check = check_contradiction_hoh_without_qualifying_dependent;
  message = "Filing status is 'head_of_household' but no dependents are claimed.";
  suggested_action = "Add a qualifying dependent or change filing status to 'single'.";
}

unfoldable pub check_contradiction_mfs_with_eitc : TaxSituation → Bool
check_contradiction_mfs_with_eitc s =
    if not (s.filing_status === married_filing_separately)
    then false
    else has_credit_type s earned_income

abbrev pub contradiction_mfs_with_eitc : ValidationRuleDefinition
contradiction_mfs_with_eitc = record {
  id = "CONTRADICTION_MFS_WITH_EITC";
  severity = error;
  category = contradiction;
  check = check_contradiction_mfs_with_eitc;
  message = "Married filing separately filers are ineligible for the Earned Income Tax Credit.";
  suggested_action = "Remove the EITC credit or change filing status to 'married_filing_jointly'.";
}
