-- ===== src/Tier/Engine/Free.antt =====
-- Whom the free tiers serve, across providers; and the list of evaluations.
use tea_tax_product.Prelude.{String, ◌≡◌, refl, ap, List, [], ◌∷◌, map, arith}
use tea_tax_product.TaxSituation.{TaxSituation, ProviderEvaluation}
use tea_tax_product.Tier.Types.{ProviderTier, ProviderDefinition}
use tea_tax_product.Tier.Providers.TurboTax.{turbo_tax}
use tea_tax_product.Tier.Providers.HrBlock.{hr_block}
use tea_tax_product.Tier.Providers.TaxAct.{tax_act}
use tea_tax_product.Tier.Providers.CashApp.{cash_app_taxes}
use tea_tax_product.Tier.Engine.{evaluate_provider, evaluate_tier_placement}
use tea_tax_product.Tier.Engine.Laws.{Placed, at_tier, nowhere, evaluate_provider-Placed}
use tea_tax_product.Tier.Engine.Decisions.{
  offer, at, turbo_tax-offer, hr_block-offer, tax_act-offer, cash_app_taxes-offer,
}

Placed-provider_id :
    (s : TaxSituation) (p : ProviderDefinition) (tiers : List ProviderTier) (pushed : List String)
    {e : ProviderEvaluation}
    → Placed s p tiers pushed e
    → e.provider_id ≡ p.provider_id
Placed-provider_id s p tiers pushed (at_tier before after t split none_before here eq) =
    ap (λ e. e.provider_id) eq
Placed-provider_id s p tiers pushed (nowhere all_skipped eq) = ap (λ e. e.provider_id) eq

-- There is one evaluation for each provider, in the order of the providers.
pub evaluate_tier_placement-provider_id :
    (s : TaxSituation) (ps : List ProviderDefinition)
    → map (λ e. e.provider_id) (evaluate_tier_placement s ps).evaluations
      ≡ map (λ p. p.provider_id) ps
unfolding evaluate_tier_placement
evaluate_tier_placement-provider_id s [] = refl
evaluate_tier_placement-provider_id s (p ∷ ps) = rw (
  Placed-provider_id s p p.tiers [] (evaluate_provider-Placed s p),
  evaluate_tier_placement-provider_id s ps,
)

-- Whoever TurboTax takes for free, H&R Block, TaxAct and Cash App Taxes take into their free tiers too.
pub turbo_tax_free-others :
    (s : TaxSituation)
    → offer (evaluate_provider s turbo_tax) ≡ at "Free" 0 0
    → (offer (evaluate_provider s hr_block) ≡ at "Free Online" 0 0)
      × (offer (evaluate_provider s tax_act) ≡ at "Free" 0 3999)
      × (offer (evaluate_provider s cash_app_taxes) ≡ at "Free" 0 0)
turbo_tax_free-others s h =
    ground (arith, turbo_tax-offer s, hr_block-offer s, tax_act-offer s, cash_app_taxes-offer s)
