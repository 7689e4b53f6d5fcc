-- ===== src/Rules/IncompleteChain.antt =====
-- The rules of category INCOMPLETE_CHAIN in validation-rules.ts: incomplete form chains.
use tea_tax_product.Prelude.{
  Bool, true, false, not, ◌&&◌, ◌==◌, Option, none, some, List, [], ◌∷◌, any, filter, length,
  if◌then◌else◌,
}
use tea_tax_product.Prelude.Enum.{◌===◌, includes, string_eq}
use tea_tax_product.TaxSituation.{TaxSituation, Form1099Data}
use tea_tax_product.Rules.Types.{ValidationRuleDefinition, incomplete_chain}
use tea_tax_product.Rules.Helpers.{has_income_type, has_deduction_type}
use tea_tax_product.TaxSituation.Unions.{
  error, warning, filing_status_eq, income_stream_type_eq, deduction_type_eq, credit_type_eq,
  DeductionType, form_1099_b, form_1099_nec, standard, mortgage_interest, state_local_taxes,
  charitable, medical, other,
}

-- proceeds or costBasis is undefined
unfoldable pub lacks_8949_data : Option Form1099Data → Bool
lacks_8949_data none = true
lacks_8949_data (some d) = elim d.proceeds [
  | none ↦ true
  | some _ ↦ elim d.cost_basis [ none ↦ true | some _ ↦ false ]
]

abbrev pub schedule_a_types : List DeductionType
schedule_a_types = mortgage_interest ∷ state_local_taxes ∷ charitable ∷ medical ∷ []

unfoldable pub check_incomplete_chain_schedule_d_without_form_8949 : TaxSituation → Bool
check_incomplete_chain_schedule_d_without_form_8949 s =
    let streams_1099b = filter (λ x. x.type === form_1099_b) s.income_streams in
    if length streams_1099b == 0
    then false
    else any (λ x. lacks_8949_data x.form1099_data) streams_1099b

abbrev pub incomplete_chain_schedule_d_without_form_8949 : ValidationRuleDefinition
incomplete_chain_schedule_d_without_form_8949 = record {
  id = "INCOMPLETE_CHAIN_SCHEDULE_D_WITHOUT_FORM_8949";
  severity = error;
  category = incomplete_chain;
  check = check_incomplete_chain_schedule_d_without_form_8949;
  message =
      "1099-B capital transactions are present but proceeds or cost basis data is missing (Form 8949 cannot be completed).";
  suggested_action = "Populate both proceeds and cost basis on all 1099-B income streams.";
}

unfoldable pub check_incomplete_chain_itemized_without_schedule_a : TaxSituation → Bool
check_incomplete_chain_itemized_without_schedule_a s =
    let has_itemized_deduction = any (λ d. not (d.type === standard)) s.deductions in
    let has_standard_deduction = has_deduction_type s standard in
    if not has_itemized_deduction
    then false
    else not (any (λ d. includes schedule_a_types d.type) s.deductions)
      && not has_standard_deduction

abbrev pub incomplete_chain_itemized_without_schedule_a : ValidationRuleDefinition
incomplete_chain_itemized_without_schedule_a = record {
  id = "INCOMPLETE_CHAIN_ITEMIZED_WITHOUT_SCHEDULE_A";
  severity = warning;
  category = incomplete_chain;
  check = check_incomplete_chain_itemized_without_schedule_a;
  message =
      "Non-standard deductions are present but no Schedule A line items (mortgage interest, SALT, charitable, or medical) were found.";
  suggested_action = "Add Schedule A deduction line items or switch to the standard deduction.";
}

unfoldable pub check_incomplete_chain_schedule_c_without_business_income : TaxSituation → Bool
check_incomplete_chain_schedule_c_without_business_income s =
    if has_income_type s form_1099_nec then false else any (λ d. d.type === other) s.deductions

abbrev pub incomplete_chain_schedule_c_without_business_income : ValidationRuleDefinition
incomplete_chain_schedule_c_without_business_income = record {
  id = "INCOMPLETE_CHAIN_SCHEDULE_C_WITHOUT_BUSINESS_INCOME";
  severity = warning;
  category = incomplete_chain;
  check = check_incomplete_chain_schedule_c_without_business_income;
  message =
      "Business expense deductions exist but no 1099-NEC income stream was found (Schedule C may be incomplete).";
  suggested_action =
      "Add the 1099-NEC income stream that corresponds to these business deductions, or remove the business deductions if they don't apply.";
}
