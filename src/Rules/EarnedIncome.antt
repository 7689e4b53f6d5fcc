-- ===== src/Rules/EarnedIncome.antt =====
-- The rule on the AGI limit of the earned income credit.
use Prim.Native.String.{◌++◌ as str_append}
use tea_tax_product.Prelude.{
  ℕ, zero, suc, ◌≡◌, refl, ◌&&◌, Option, none, some, arith, if◌then◌else◌, ◌==◌,
}
use tea_tax_product.Prelude.Enum.{◌===◌, string_eq}
use tea_tax_product.Prelude.Number.{Number, whole}
use tea_tax_product.Thresholds.{thresholds_2025}
use tea_tax_product.TaxSituation.{TaxSituation}
use tea_tax_product.TaxSituation.Tags.{filing_status_tag}
use tea_tax_product.TaxSituation.Unions.{
  FilingStatus, single, married_filing_jointly, married_filing_separately, head_of_household,
  qualifying_surviving_spouse, income_stream_type_eq, filing_status_eq,
}
use tea_tax_product.Rules.Helpers.{
  eitc_threshold_key, eitc_limit, child_key, eitc_qualifying_child_count,
}
use tea_tax_product.Rules.Helpers.Laws.{thresholds_for_lem}
use tea_tax_product.Rules.Helpers.{approximate_agi, has_credit_type}
use tea_tax_product.Rules.Threshold.{
  eitc_limit_for, above_limit, check_threshold_eitc_above_qualifying_agi,
}
use tea_tax_product.TaxSituation.Unions.{FilingStatus-discrete, earned_income, credit_type_eq}

-- The AGI limits of the earned income credit, by the number of qualifying children.
unfoldable pub by_children : Number → Number → Number → Number → ℕ → Number
by_children a b c d n = if n == 0 then a else if n == 1 then b else if n == 2 then c else d

abbrev pub eitc_agi_limit : FilingStatus → ℕ → Option Number
eitc_agi_limit married_filing_separately n = none
eitc_agi_limit married_filing_jointly n =
    some (by_children (whole 25511) (whole 56004) (whole 62688) (whole 66819) n)
eitc_agi_limit _ n = some (by_children (whole 18591) (whole 49084) (whole 55768) (whole 59899) n)

child_key-three : (n : ℕ) → child_key (suc (suc (suc n))) ≡ "3plus"
unfolding child_key
child_key-three n = ground arith

by_children-three : (a b c d : Number) (n : ℕ) → by_children a b c d (suc (suc (suc n))) ≡ d
unfolding by_children
by_children-three a b c d n = ground arith

limit-child_key :
    (t : FilingStatus) (n : ℕ)
    → eitc_limit_for thresholds_2025 (
        if t === married_filing_separately
        then none
        else some (str_append (filing_status_tag t) (str_append "_" (child_key n))))
      ≡ eitc_agi_limit t n
unfolding eitc_limit_for eitc_limit thresholds_2025 filing_status_tag by_children child_key
    FilingStatus-discrete
limit-child_key single zero = refl
limit-child_key single (suc zero) = refl
limit-child_key single (suc (suc zero)) = refl
limit-child_key single (suc (suc (suc n))) = rw (child_key-three n, by_children-three) refl
limit-child_key married_filing_jointly zero = refl
limit-child_key married_filing_jointly (suc zero) = refl
limit-child_key married_filing_jointly (suc (suc zero)) = refl
limit-child_key married_filing_jointly (suc (suc (suc n))) =
    rw (child_key-three n, by_children-three) refl
limit-child_key married_filing_separately n = refl
limit-child_key head_of_household zero = refl
limit-child_key head_of_household (suc zero) = refl
limit-child_key head_of_household (suc (suc zero)) = refl
limit-child_key head_of_household (suc (suc (suc n))) =
    rw (child_key-three n, by_children-three) refl
limit-child_key qualifying_surviving_spouse zero = refl
limit-child_key qualifying_surviving_spouse (suc zero) = refl
limit-child_key qualifying_surviving_spouse (suc (suc zero)) = refl
limit-child_key qualifying_surviving_spouse (suc (suc (suc n))) =
    rw (child_key-three n, by_children-three) refl

-- The rule on the earned income credit is violated exactly when the credit is claimed and the income is
-- above the limit for the filing status and the number of qualifying children; married filing separately
-- has no limit, so it never violates this rule.
pub eitc_above_qualifying_agi :
    (s : TaxSituation)
    → check_threshold_eitc_above_qualifying_agi s ≡ (
        has_credit_type s earned_income
        && above_limit
            (approximate_agi s)
            (eitc_agi_limit s.filing_status (eitc_qualifying_child_count s)))
unfolding check_threshold_eitc_above_qualifying_agi eitc_threshold_key
eitc_above_qualifying_agi s =
    rw (thresholds_for_lem s, limit-child_key s.filing_status (eitc_qualifying_child_count s))
      (ground arith)
