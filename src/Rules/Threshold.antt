-- ===== src/Rules/Threshold.antt =====
-- The rules of category THRESHOLD in validation-rules.ts: thresholds and eligibility.
use tea_tax_product.Prelude.{String, Bool, false, not, ◌&&◌, Option, none, some, if◌then◌else◌}
use tea_tax_product.Prelude.Enum.{string_eq}
use tea_tax_product.Prelude.Int.{ltb_ℤ}
use tea_tax_product.Prelude.Number.{Number, whole, gt}
use tea_tax_product.TaxSituation.{TaxSituation}
use tea_tax_product.Rules.Types.{ValidationRuleDefinition, threshold}
use tea_tax_product.Rules.Helpers.{
  has_income_type, has_credit_type, net_self_employment_income, thresholds_for, approximate_agi,
  eitc_threshold_key, eitc_limit,
}
use tea_tax_product.Thresholds.{TaxYearThresholds}
use tea_tax_product.TaxSituation.Unions.{
  error, warning, info, filing_status_eq, income_stream_type_eq, deduction_type_eq, credit_type_eq,
  form_1099_nec, earned_income,
}

-- The key is undefined for married filing separately, and the limit for an unknown key.
unfoldable pub eitc_limit_for : TaxYearThresholds → Option String → Option Number
eitc_limit_for t none = none
eitc_limit_for t (some key) = eitc_limit t.eitc_thresholds key

unfoldable pub above_limit : Number → Option Number → Bool
above_limit agi none = false
above_limit agi (some limit) = gt agi limit

unfoldable pub check_threshold_free_file_agi_exceeded : TaxSituation → Bool
check_threshold_free_file_agi_exceeded s =
    gt (approximate_agi s) (thresholds_for s).free_file_agi_limit

abbrev pub threshold_free_file_agi_exceeded : ValidationRuleDefinition
threshold_free_file_agi_exceeded = record {
  id = "THRESHOLD_FREE_FILE_AGI_EXCEEDED";
  severity = info;
  category = threshold;
  check = check_threshold_free_file_agi_exceeded;
  message = "Income exceeds the IRS Free File AGI limit, making Free File ineligible.";
  suggested_action =
      "Use a paid tax preparation service or direct filing option instead of IRS Free File.";
}

unfoldable pub check_threshold_eitc_above_qualifying_agi : TaxSituation → Bool
check_threshold_eitc_above_qualifying_agi s =
    if not (has_credit_type s earned_income)
    then false
    else above_limit (approximate_agi s) (eitc_limit_for (thresholds_for s) (eitc_threshold_key s))

abbrev pub threshold_eitc_above_qualifying_agi : ValidationRuleDefinition
threshold_eitc_above_qualifying_agi = record {
  id = "THRESHOLD_EITC_ABOVE_QUALIFYING_AGI";
  severity = error;
  category = threshold;
  check = check_threshold_eitc_above_qualifying_agi;
  message = "Income exceeds the EITC AGI threshold for this filing status and dependent count.";
  suggested_action =
      "Verify the earned income credit eligibility or remove the EITC credit if income exceeds the limit.";
}

unfoldable pub check_threshold_se_net_below_400_with_se : TaxSituation → Bool
check_threshold_se_net_below_400_with_se s =
    if not (has_income_type s form_1099_nec)
    then false
    else gt (net_self_employment_income s) (whole 0)
      && ltb_ℤ (net_self_employment_income s) (thresholds_for s).self_employment_threshold

abbrev pub threshold_se_net_below_400_with_se : ValidationRuleDefinition
threshold_se_net_below_400_with_se = record {
  id = "THRESHOLD_SE_NET_BELOW_400_WITH_SE";
  severity = warning;
  category = threshold;
  check = check_threshold_se_net_below_400_with_se;
  message =
      "Net self-employment income is below $400 — Schedule SE (self-employment tax) is not required.";
  suggested_action =
      "Confirm this is correct. If net SE income is below $400, no self-employment tax is owed and Schedule SE is not needed.";
}
