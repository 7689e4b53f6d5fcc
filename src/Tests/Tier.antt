-- ===== src/Tests/Tier.antt =====
-- The tier placement of the sample situations.
use tea_tax_product.Prelude.{any, ◌≡◌, refl, true, false, [], ◌∷◌, map, String, List}
use tea_tax_product.Tests.Samples.{employee, freelancer}
use tea_tax_product.Tier.Conditions.{has_complex_income, has_only_w2_income, has_k1_income}
use tea_tax_product.Tier.Providers.TurboTax.{turbo_tax}
use tea_tax_product.Tier.Providers.HrBlock.{hr_block}
use tea_tax_product.Tier.Providers.TaxAct.{tax_act}
use tea_tax_product.Tier.Providers.CashApp.{cash_app_taxes}
use tea_tax_product.Tier.Engine.{evaluate_provider}
use tea_tax_product.Tier.Engine.Laws.{Placed, evaluate_provider-Placed}
use tea_tax_product.Tier.Engine.Decisions.{offer, at, turbo_tax-offer, hr_block-offer}
use tea_tax_product.Tier.Engine.Free.{turbo_tax_free-others}

evaluate_provider-Placed_example :
    Placed freelancer turbo_tax turbo_tax.tiers [] (evaluate_provider freelancer turbo_tax)
evaluate_provider-Placed_example = evaluate_provider-Placed freelancer turbo_tax

turbo_tax-offer_example :
    offer (evaluate_provider freelancer turbo_tax) ≡ at "Self-Employed" 12900 5900
unfolding tea_tax_product.Tier.Conditions.has_self_employment_income tea_tax_product.Prelude.any
    tea_tax_product.Prelude.Enum.includes
    tea_tax_product.TaxSituation.Unions.IncomeStreamType-discrete
turbo_tax-offer_example = turbo_tax-offer freelancer

hr_block-offer_example : offer (evaluate_provider employee hr_block) ≡ at "Free Online" 0 0
unfolding tea_tax_product.Tier.Conditions.has_self_employment_income tea_tax_product.Prelude.any
    tea_tax_product.Prelude.Enum.includes
    tea_tax_product.TaxSituation.Unions.IncomeStreamType-discrete
    tea_tax_product.Tier.Conditions.has_investment_income
    tea_tax_product.Tier.Conditions.has_rental_income has_k1_income
    tea_tax_product.Tier.Conditions.has_itemized_deduction
hr_block-offer_example = hr_block-offer employee

employee_free : offer (evaluate_provider employee turbo_tax) ≡ at "Free" 0 0
unfolding tea_tax_product.Tier.Conditions.has_self_employment_income tea_tax_product.Prelude.any
    tea_tax_product.Prelude.Enum.includes
    tea_tax_product.TaxSituation.Unions.IncomeStreamType-discrete
    tea_tax_product.Tier.Conditions.has_investment_income
    tea_tax_product.Tier.Conditions.has_rental_income has_k1_income
    tea_tax_product.Tier.Conditions.has_itemized_deduction has_only_w2_income evaluate_provider
    tea_tax_product.Prelude.all
employee_free = turbo_tax-offer employee

turbo_tax_free-others_example :
    (offer (evaluate_provider employee hr_block) ≡ at "Free Online" 0 0)
    × (offer (evaluate_provider employee tax_act) ≡ at "Free" 0 3999)
    × (offer (evaluate_provider employee cash_app_taxes) ≡ at "Free" 0 0)
turbo_tax_free-others_example = turbo_tax_free-others employee employee_free

employee_only_w2 : has_only_w2_income employee ≡ true
unfolding has_only_w2_income tea_tax_product.Prelude.all
    tea_tax_product.TaxSituation.Unions.IncomeStreamType-discrete
employee_only_w2 = refl
