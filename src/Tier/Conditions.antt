-- ===== src/Tier/Conditions.antt =====
-- The condition helpers of tier-mapping.ts. The types that the source compares as strings are compared
-- as members of the union.
pub mod Laws
use tea_tax_product.Prelude.{
  Bool, false, ◌||◌, ◌&&◌, not, List, [], ◌∷◌, any, all, is_empty, if◌then◌else◌,
}
use tea_tax_product.Prelude.Enum.{◌===◌, includes}
use tea_tax_product.TaxSituation.{TaxSituation}
use tea_tax_product.TaxSituation.Unions.{
  IncomeStreamType, w2, form_1099_nec, form_1099_misc, form_1099_b, form_1099_div, form_1099_int,
  form_1099_r, k1, rental, mortgage_interest, charitable, medical, state_local_taxes,
  income_stream_type_eq, deduction_type_eq,
}

unfoldable pub has_income_type : TaxSituation → IncomeStreamType → Bool
has_income_type s t = any (λ x. x.type === t) s.income_streams

unfoldable pub has_any_income_type : TaxSituation → List IncomeStreamType → Bool
has_any_income_type s ts = any (λ x. includes ts x.type) s.income_streams

unfoldable pub has_any_income : TaxSituation → Bool
has_any_income s = not (is_empty s.income_streams)

unfoldable pub has_rental_income : TaxSituation → Bool
unfolding has_income_type
has_rental_income s = has_income_type s rental

unfoldable pub has_self_employment_income : TaxSituation → Bool
unfolding has_any_income_type
has_self_employment_income s = has_any_income_type s (form_1099_nec ∷ form_1099_misc ∷ [])

unfoldable pub has_investment_income : TaxSituation → Bool
unfolding has_any_income_type
has_investment_income s = has_any_income_type s (form_1099_b ∷ form_1099_div ∷ form_1099_int ∷ [])

unfoldable pub has_k1_income : TaxSituation → Bool
unfolding has_income_type
has_k1_income s = has_income_type s k1

unfoldable pub is_multi_state : TaxSituation → Bool
is_multi_state s = not (is_empty s.state_residency.additional)

unfoldable pub has_only_w2_income : TaxSituation → Bool
unfolding has_any_income
has_only_w2_income s =
    if not (has_any_income s) then false else all (λ x. x.type === w2) s.income_streams

unfoldable pub has_w2_income : TaxSituation → Bool
unfolding has_income_type
has_w2_income s = has_income_type s w2

unfoldable pub has_retirement_income : TaxSituation → Bool
unfolding has_income_type
has_retirement_income s = has_income_type s form_1099_r

-- The arrow function that the Deluxe and Free tiers share.
unfoldable pub has_itemized_deduction : TaxSituation → Bool
has_itemized_deduction s =
    any
      (λ d.
        d.type === mortgage_interest
        || d.type === charitable
        || d.type === medical
        || d.type === state_local_taxes)
      s.deductions

-- The arrow functions that several tiers share, over the helpers above.
unfoldable pub has_premium_income : TaxSituation → Bool
has_premium_income s = has_investment_income s || has_rental_income s || has_k1_income s

unfoldable pub has_complex_income : TaxSituation → Bool
has_complex_income s =
    has_self_employment_income s
    || has_investment_income s
    || has_rental_income s
    || has_k1_income s

unfoldable pub is_simple_return : TaxSituation → Bool
is_simple_return s =
    has_only_w2_income s
    || not (has_self_employment_income s)
      && not (has_investment_income s)
      && not (has_rental_income s)
      && not (has_k1_income s)

unfoldable pub needs_support : TaxSituation → Bool
needs_support s =
    has_self_employment_income s
    || has_investment_income s
    || has_rental_income s
    || has_k1_income s
    || is_multi_state s
