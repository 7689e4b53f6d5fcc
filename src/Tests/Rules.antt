-- ===== src/Tests/Rules.antt =====
-- The rules at the sample situations.
use tea_tax_product.Prelude.{◌≡◌, refl, true, false, some, ◌&&◌, any}
use tea_tax_product.Prelude.Int.{ltb_ℤ}
use tea_tax_product.Prelude.Number.{gt, whole}
use tea_tax_product.Tests.Samples.{freelancer}
use tea_tax_product.TaxSituation.Unions.{form_1099_nec, earned_income}
use tea_tax_product.Rules.Helpers.{
  income_by_type, approximate_agi, has_credit_type, has_income_type,
}
use tea_tax_product.Rules.Missing.{
  check_missing_schedule_c, check_missing_schedule_se, check_missing_schedule_d,
}
use tea_tax_product.Rules.Contradiction.{check_contradiction_single_with_dependent_spouse}
use tea_tax_product.Rules.Threshold.{
  above_limit, check_threshold_se_net_below_400_with_se, check_threshold_eitc_above_qualifying_agi,
}
use tea_tax_product.Rules.Exclusions.{schedule_se_rules}
use tea_tax_product.Rules.EarnedIncome.{eitc_above_qualifying_agi}

schedule_se_rules_example :
    (check_missing_schedule_se freelancer
      ≡ gt (income_by_type freelancer form_1099_nec) (whole 400))
    × (check_threshold_se_net_below_400_with_se freelancer ≡ (
        gt (income_by_type freelancer form_1099_nec) (whole 0)
        && ltb_ℤ (income_by_type freelancer form_1099_nec) (whole 400)))
schedule_se_rules_example = schedule_se_rules freelancer

freelancer-missing_schedule_d : check_missing_schedule_d freelancer ≡ true
unfolding check_missing_schedule_d has_income_type any
    tea_tax_product.TaxSituation.Unions.IncomeStreamType-discrete
    tea_tax_product.Rules.Missing.has_proceeds
freelancer-missing_schedule_d = refl

freelancer-spouse : check_contradiction_single_with_dependent_spouse freelancer ≡ true
unfolding check_contradiction_single_with_dependent_spouse any
    tea_tax_product.TaxSituation.Unions.FilingStatus-discrete tea_tax_product.Js.lower_is
    tea_tax_product.Js.same_codes tea_tax_product.Js.lower
freelancer-spouse = refl

freelancer-missing_schedule_c : check_missing_schedule_c freelancer ≡ true
unfolding check_missing_schedule_c has_income_type any
    tea_tax_product.TaxSituation.Unions.IncomeStreamType-discrete
freelancer-missing_schedule_c = refl

eitc_above_qualifying_agi_example : check_threshold_eitc_above_qualifying_agi freelancer ≡ (
    has_credit_type freelancer earned_income
    && above_limit (approximate_agi freelancer) (some (whole 49084)))
unfolding tea_tax_product.Rules.Helpers.eitc_qualifying_child_count
    tea_tax_product.Rules.EarnedIncome.by_children tea_tax_product.Prelude.filter
eitc_above_qualifying_agi_example = eitc_above_qualifying_agi freelancer
