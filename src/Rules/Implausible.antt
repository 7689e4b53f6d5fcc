-- ===== src/Rules/Implausible.antt =====
-- The rules of category IMPLAUSIBLE in validation-rules.ts: numerically implausible values.
use tea_tax_product.Prelude.{String, Bool, false, not, ◌&&◌, Option, none, some, any, if◌then◌else◌}
use tea_tax_product.Prelude.Enum.{◌===◌, string_eq}
use tea_tax_product.Prelude.Int.{◌-ℤ◌, ltb_ℤ}
use tea_tax_product.Prelude.Number.{Number, whole, gt, ge}
use tea_tax_product.TaxSituation.{TaxSituation, IncomeStream, W2Data, Form1099Data}
use tea_tax_product.Rules.Types.{ValidationRuleDefinition, implausible}
use tea_tax_product.Rules.Helpers.{approximate_agi}
use tea_tax_product.TaxSituation.Unions.{
  error, warning, filing_status_eq, income_stream_type_eq, deduction_type_eq, credit_type_eq,
  form_1099_b, w2,
}

-- costBasis and proceeds are both there, and costBasis - proceeds > 0
unfoldable pub shows_loss : Option Form1099Data → Bool
shows_loss none = false
shows_loss (some d) = elim d.cost_basis [
  | none ↦ false
  | some basis ↦ elim d.proceeds [ none ↦ false | some p ↦ gt (basis -ℤ p) (whole 0) ]
]

-- w2Data?.wages ?? amount
unfoldable pub w2_wages : IncomeStream → Number
w2_wages x = elim x.w2_data [ some d ↦ d.wages | none ↦ x.amount ]

-- w2Data?.federalTaxWithheld ?? form1099Data?.federalTaxWithheld ?? 0
unfoldable pub withheld : Option W2Data → Option Form1099Data → Number
withheld (some d) f = d.federal_tax_withheld
withheld none none = whole 0
withheld none (some f) = elim f.federal_tax_withheld [ some n ↦ n | none ↦ whole 0 ]

-- `birth_year` is `new Date(s).getFullYear()`, `none` for NaN, which is over no age
unfoldable pub over_24 : Number → Option Number → Bool
over_24 filing_year none = false
over_24 filing_year (some born) = gt (filing_year -ℤ born) (whole 24)

unfoldable pub check_implausible_negative_agi_without_capital_loss_docs : TaxSituation → Bool
check_implausible_negative_agi_without_capital_loss_docs s =
    if ge (approximate_agi s) (whole 0)
    then false
    else not (any (λ x. x.type === form_1099_b && shows_loss x.form1099_data) s.income_streams)

abbrev pub implausible_negative_agi_without_capital_loss_docs : ValidationRuleDefinition
implausible_negative_agi_without_capital_loss_docs = record {
  id = "IMPLAUSIBLE_NEGATIVE_AGI_WITHOUT_CAPITAL_LOSS_DOCS";
  severity = warning;
  category = implausible;
  check = check_implausible_negative_agi_without_capital_loss_docs;
  message = "Total income is negative but no capital loss documentation was found.";
  suggested_action =
      "Attach 1099-B capital loss documentation to explain the negative income total.";
}

unfoldable pub check_implausible_w2_wages_over_10m : TaxSituation → Bool
check_implausible_w2_wages_over_10m s =
    any (λ x. x.type === w2 && gt (w2_wages x) (whole 10000000)) s.income_streams

abbrev pub implausible_w2_wages_over_10m : ValidationRuleDefinition
implausible_w2_wages_over_10m = record {
  id = "IMPLAUSIBLE_W2_WAGES_OVER_10M";
  severity = warning;
  category = implausible;
  check = check_implausible_w2_wages_over_10m;
  message = "A W-2 income stream shows wages exceeding $10,000,000.";
  suggested_action =
      "Verify the W-2 wage amount for a data entry error (e.g. extra zeroes or misplaced decimal).";
}

unfoldable pub check_implausible_negative_withholding : TaxSituation → Bool
check_implausible_negative_withholding s =
    any (λ x. ltb_ℤ (withheld x.w2_data x.form1099_data) (whole 0)) s.income_streams

abbrev pub implausible_negative_withholding : ValidationRuleDefinition
implausible_negative_withholding = record {
  id = "IMPLAUSIBLE_NEGATIVE_WITHHOLDING";
  severity = error;
  category = implausible;
  check = check_implausible_negative_withholding;
  message = "A federal tax withholding amount is negative, which is invalid.";
  suggested_action = "Correct the withholding amount on the affected income stream.";
}

unfoldable pub check_implausible_dependent_over_24_for_ctc :
    (String → Option Number) → TaxSituation → Bool
check_implausible_dependent_over_24_for_ctc birth_year s =
    any
      (λ dep.
        if not dep.qualifies_for_child_tax_credit
        then false
        else if dep.date_of_birth === ""
        then false
        else over_24 s.filing_year (birth_year dep.date_of_birth))
      s.dependents

abbrev pub implausible_dependent_over_24_for_ctc :
    (String → Option Number) → ValidationRuleDefinition
implausible_dependent_over_24_for_ctc birth_year = record {
  id = "IMPLAUSIBLE_DEPENDENT_OVER_24_FOR_CTC";
  severity = warning;
  category = implausible;
  check = check_implausible_dependent_over_24_for_ctc birth_year;
  message = "A dependent marked as qualifying for the Child Tax Credit has an age over 24.";
  suggested_action = "Verify the dependent date of birth and Child Tax Credit eligibility flag.";
}
