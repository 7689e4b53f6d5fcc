-- ===== src/Tier/Engine/Decisions.antt =====
-- The tier that each provider's rules give, as a table over the facts of a situation.
use tea_tax_product.Prelude.{ℕ, String, ◌≡◌, Option, none, some, ◌||◌, arith, if◌then◌else◌, all}
use tea_tax_product.TaxSituation.{TaxSituation, ProviderEvaluation}
use tea_tax_product.Tier.Providers.TurboTax.{turbo_tax}
use tea_tax_product.Tier.Providers.HrBlock.{hr_block}
use tea_tax_product.Tier.Providers.TaxAct.{tax_act}
use tea_tax_product.Tier.Providers.FreeTaxUsa.{free_tax_usa}
use tea_tax_product.Tier.Providers.CashApp.{cash_app_taxes}
use tea_tax_product.Tier.Conditions.{
  has_self_employment_income, has_investment_income, has_rental_income, has_k1_income,
  is_multi_state, has_only_w2_income, has_itemized_deduction, has_premium_income,
  has_complex_income, is_simple_return, needs_support,
}
use tea_tax_product.Tier.Engine.{disqualified, all_qualify, place, evaluate_provider}

-- Tier, federal price and state price, in cents.
abbrev pub Offer : Type 0
Offer = Option String × Option ℕ × Option ℕ

abbrev pub offer : ProviderEvaluation → Offer
offer e = (e.matched_tier, e.federal_price, e.state_price)

abbrev pub at : String → ℕ → ℕ → Offer
at tier federal state = (some tier, some federal, some state)

abbrev pub no_offer : Offer
no_offer = (none, none, none)

-- TurboTax: self-employment income goes to Self-Employed; investment, rental or K-1 income to Premium;
-- itemized deductions to Deluxe; W-2 income alone to Free; anything else has no tier.
pub turbo_tax-offer :
    (s : TaxSituation)
    → offer (evaluate_provider s turbo_tax) ≡ (
        if has_self_employment_income s
        then at "Self-Employed" 12900 5900
        else if has_investment_income s || has_rental_income s || has_k1_income s
        then at "Premium" 12900 5900
        else if has_itemized_deduction s
        then at "Deluxe" 6900 5900
        else if has_only_w2_income s
        then at "Free" 0 0
        else no_offer)
unfolding evaluate_provider place disqualified all_qualify all has_premium_income has_complex_income
turbo_tax-offer s = ground arith

-- H&R Block: self-employment income goes to Self-Employed; investment, rental or K-1 income to Premium;
-- itemized deductions to Deluxe; anything else is free.
pub hr_block-offer :
    (s : TaxSituation)
    → offer (evaluate_provider s hr_block) ≡ (
        if has_self_employment_income s
        then at "Self-Employed" 11000 3700
        else if has_investment_income s || has_rental_income s || has_k1_income s
        then at "Premium" 8500 3700
        else if has_itemized_deduction s
        then at "Deluxe" 5500 3700
        else at "Free Online" 0 0)
unfolding evaluate_provider place disqualified all_qualify all has_premium_income has_complex_income
    is_simple_return
hr_block-offer s = ground arith

-- TaxAct: self-employment income goes to Self-Employed+; investment, rental or K-1 income to Premier;
-- itemized deductions to Deluxe+; anything else to Free, which has a price for each state return.
pub tax_act-offer :
    (s : TaxSituation)
    → offer (evaluate_provider s tax_act) ≡ (
        if has_self_employment_income s
        then at "Self-Employed+" 9999 5499
        else if has_investment_income s || has_rental_income s || has_k1_income s
        then at "Premier" 7999 5499
        else if has_itemized_deduction s
        then at "Deluxe+" 4999 5499
        else at "Free" 0 3999)
unfolding evaluate_provider place disqualified all_qualify all has_premium_income has_complex_income
    is_simple_return
tax_act-offer s = ground arith

-- FreeTaxUSA: always a tier, always free federal filing; self-employment, investment, rental or K-1 income
-- or an additional state makes it Deluxe.
pub free_tax_usa-offer :
    (s : TaxSituation)
    → offer (evaluate_provider s free_tax_usa)
      ≡ at
          (if has_self_employment_income s
              || has_investment_income s
              || has_rental_income s
              || has_k1_income s
              || is_multi_state s
            then "Deluxe"
            else "Free")
          0
          1499
unfolding evaluate_provider place disqualified all_qualify all needs_support
free_tax_usa-offer s = ground arith

-- Cash App Taxes: free, unless there is K-1 income, for which there is no tier.
pub cash_app_taxes-offer :
    (s : TaxSituation)
    → offer (evaluate_provider s cash_app_taxes)
      ≡ (if has_k1_income s then no_offer else at "Free" 0 0)
unfolding evaluate_provider place disqualified all_qualify all
cash_app_taxes-offer s = ground arith
