-- ===== src/Rules/Missing.antt =====
-- The rules of category MISSING in validation-rules.ts: missing forms and schedules.
use tea_tax_product.Prelude.{
  Bool, true, false, not, ◌&&◌, ◌||◌, Option, none, some, any, if◌then◌else◌,
}
use tea_tax_product.Prelude.Enum.{◌===◌, string_eq}
use tea_tax_product.Prelude.Number.{gt}
use tea_tax_product.TaxSituation.{TaxSituation, Form1099Data}
use tea_tax_product.Rules.Types.{ValidationRuleDefinition, missing}
use tea_tax_product.Rules.Helpers.{has_income_type, net_self_employment_income, thresholds_for}
use tea_tax_product.TaxSituation.Unions.{
  error, filing_status_eq, income_stream_type_eq, deduction_type_eq, credit_type_eq, form_1099_nec,
  form_1099_b, rental, standard, mortgage_interest, other,
}

-- form1099Data?.proceeds !== undefined
unfoldable pub has_proceeds : Option Form1099Data → Bool
has_proceeds none = false
has_proceeds (some d) = elim d.proceeds [ none ↦ false | some _ ↦ true ]

unfoldable pub check_missing_schedule_c : TaxSituation → Bool
check_missing_schedule_c s =
    if not (has_income_type s form_1099_nec)
    then false
    else not (any (λ d. not (d.type === standard)) s.deductions)

abbrev pub missing_schedule_c : ValidationRuleDefinition
missing_schedule_c = record {
  id = "MISSING_SCHEDULE_C";
  severity = error;
  category = missing;
  check = check_missing_schedule_c;
  message = "1099-NEC income is present but no Schedule C business deductions were found.";
  suggested_action =
      "Add Schedule C business expense deductions or confirm this income is correctly categorized.";
}

unfoldable pub check_missing_schedule_se : TaxSituation → Bool
check_missing_schedule_se s =
    if not (gt (net_self_employment_income s) (thresholds_for s).self_employment_threshold)
    then false
    else if not (has_income_type s form_1099_nec)
    then false
    else true

abbrev pub missing_schedule_se : ValidationRuleDefinition
missing_schedule_se = record {
  id = "MISSING_SCHEDULE_SE";
  severity = error;
  category = missing;
  check = check_missing_schedule_se;
  message =
      "Self-employment net income exceeds $400 but Schedule SE (self-employment tax) has not been accounted for.";
  suggested_action =
      "Ensure Schedule SE is included to calculate self-employment tax on this net income.";
}

unfoldable pub check_missing_schedule_d : TaxSituation → Bool
check_missing_schedule_d s =
    if not (has_income_type s form_1099_b)
    then false
    else not (any (λ x. x.type === form_1099_b && has_proceeds x.form1099_data) s.income_streams)

abbrev pub missing_schedule_d : ValidationRuleDefinition
missing_schedule_d = record {
  id = "MISSING_SCHEDULE_D";
  severity = error;
  category = missing;
  check = check_missing_schedule_d;
  message = "1099-B income is present but no proceeds (Schedule D) data was found.";
  suggested_action =
      "Populate proceeds and cost basis on the 1099-B income stream so Schedule D can be completed.";
}

unfoldable pub check_missing_schedule_e : TaxSituation → Bool
check_missing_schedule_e s =
    if not (has_income_type s rental)
    then false
    else not (any (λ d. d.type === mortgage_interest || d.type === other) s.deductions)

abbrev pub missing_schedule_e : ValidationRuleDefinition
missing_schedule_e = record {
  id = "MISSING_SCHEDULE_E";
  severity = error;
  category = missing;
  check = check_missing_schedule_e;
  message = "Rental income is present but no Schedule E expense deductions were found.";
  suggested_action =
      "Add rental property expense deductions (mortgage interest, depreciation, repairs) for Schedule E.";
}
