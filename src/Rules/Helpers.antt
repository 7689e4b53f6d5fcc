-- ===== src/Rules/Helpers.antt =====
-- The internal helpers of validation-rules.ts.
pub mod Laws
use Prim.Native.Char.{code}
use Prim.Native.String
use Prim.Native.String.{◌++◌ as str_append}
use mathlib.Core.Option.{get_or}
use tea_tax_product.Prelude.{
  ℕ, ◌+◌, String, Bool, true, false, ◌&&◌, Option, none, some, List, [], ◌∷◌, map, any, filter,
  length, if◌then◌else◌, ◌==◌, leb,
}
use tea_tax_product.Prelude.Enum.{◌===◌, string_eq}
use tea_tax_product.Prelude.Number.{Number, whole, sum_from}
use tea_tax_product.Thresholds.{TaxYearThresholds, thresholds_by_year, thresholds_2025}
use tea_tax_product.TaxSituation.{TaxSituation}
use tea_tax_product.TaxSituation.Tags.{filing_status_tag}
use tea_tax_product.TaxSituation.Unions.{
  IncomeStreamType, DeductionType, CreditType, form_1099_nec, married_filing_separately,
  income_stream_type_eq, deduction_type_eq, credit_type_eq, filing_status_eq,
}

unfoldable pub total_income : TaxSituation → Number
total_income s = sum_from (whole 0) (map (λ x. x.amount) s.income_streams)

unfoldable pub income_by_type : TaxSituation → IncomeStreamType → Number
income_by_type s t =
    sum_from (whole 0) (map (λ x. x.amount) (filter (λ x. x.type === t) s.income_streams))

unfoldable pub has_income_type : TaxSituation → IncomeStreamType → Bool
has_income_type s t = any (λ x. x.type === t) s.income_streams

unfoldable pub has_deduction_type : TaxSituation → DeductionType → Bool
has_deduction_type s t = any (λ d. d.type === t) s.deductions

unfoldable pub has_credit_type : TaxSituation → CreditType → Bool
has_credit_type s t = any (λ c. c.type === t) s.credits

unfoldable pub net_self_employment_income : TaxSituation → Number
net_self_employment_income s = income_by_type s form_1099_nec

unfoldable pub thresholds_for : TaxSituation → TaxYearThresholds
thresholds_for s = elim (thresholds_by_year s.filing_year) [ some t ↦ t | none ↦ thresholds_2025 ]

unfoldable pub approximate_agi : TaxSituation → Number
approximate_agi s = total_income s

unfoldable pub eitc_qualifying_child_count : TaxSituation → ℕ
eitc_qualifying_child_count s = length (filter (λ d. d.qualifies_for_eic) s.dependents)

unfoldable pub child_key : ℕ → String
child_key n = if n == 0 then "0" else if n == 1 then "1" else if n == 2 then "2" else "3plus"

unfoldable pub eitc_threshold_key : TaxSituation → Option String
eitc_threshold_key s =
    if s.filing_status === married_filing_separately
    then none
    else some (
        str_append (filing_status_tag s.filing_status)
          (str_append "_" (child_key (eitc_qualifying_child_count s))))

-- `thresholds.eitcThresholds[key]`
unfoldable pub eitc_limit : List (String × Number) → String → Option Number
eitc_limit [] key = none
eitc_limit ((k, limit) ∷ rest) key = if k === key then some limit else eitc_limit rest key
