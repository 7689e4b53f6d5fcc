-- ===== src/Tier/Engine.antt =====
-- `evaluateTierPlacement` of tier-mapping.ts. The variables that its loop over the tiers assigns are the
-- fields of the evaluation that it returns.
pub mod Laws
pub mod Decisions
pub mod Free
use Prim.Native.String.{◌++◌ as str_append}
use tea_tax_product.Prelude.{
  String, Bool, true, false, Option, none, some, List, [], ◌∷◌, ◌++◌, map, all, is_empty,
}
use tea_tax_product.TaxSituation.{TaxSituation, ProviderEvaluation, TierEvaluationResult}
use tea_tax_product.Tier.Types.{TierCondition, ProviderTier, ProviderDefinition}
use tea_tax_product.Tier.Providers.{providers}

-- `[${tier.tierName}] disqualified: ${cond.description}`
unfoldable pub disqualified_message : String → TierCondition → String
disqualified_message tier_name cond =
    str_append "[" (str_append tier_name (str_append "] disqualified: " cond.description))

-- Step 1: `.some` stops at the first condition that fires, after it has pushed its message.
unfoldable pub disqualified : ProviderTier → TaxSituation → List TierCondition → Option String
disqualified tier s [] = none
disqualified tier s (cond ∷ conds) = elim (cond.evaluate s) [
  | true ↦ some (disqualified_message tier.tier_name cond)
  | false ↦ disqualified tier s conds
]

-- Step 2.
unfoldable pub all_qualify : ProviderTier → TaxSituation → Bool
unfolding all
all_qualify tier s = all (λ cond. cond.evaluate s) tier.qualifying_conditions

unfoldable pub matched_descriptions : List TierCondition → TaxSituation → List String
matched_descriptions [] s = []
matched_descriptions (cond ∷ conds) s =
    let rest = matched_descriptions conds s in
    elim (cond.evaluate s) [ true ↦ cond.description ∷ rest | false ↦ rest ]

-- `Catch-all ${tier.tierName} tier`, where there is no condition to describe
unfoldable pub matched_conditions : ProviderTier → TaxSituation → List String
unfolding matched_descriptions
matched_conditions tier s =
    matched_descriptions tier.qualifying_conditions s ++ elim tier.qualifying_conditions [
      | [] ↦ str_append "Catch-all " (str_append tier.tier_name " tier") ∷ []
      | _ ∷ _ ↦ []
    ]

-- The loop from `tiers` on, with the messages pushed so far.
unfoldable pub place :
    ProviderDefinition → TaxSituation → List ProviderTier → List String → ProviderEvaluation
place provider s [] disqualified_by = record {
  provider_id = provider.provider_id;
  provider_name = provider.provider_name;
  matched_tier = none;
  federal_price = none;
  state_price = none;
  matched_conditions = [];
  disqualified_by = disqualified_by;
}
place provider s (tier ∷ tiers) disqualified_by =
    elim (disqualified tier s tier.disqualifying_conditions) [
      | some message ↦ place provider s tiers (disqualified_by ++ message ∷ [])
      | none ↦ elim (all_qualify tier s) [
        | false ↦ place provider s tiers disqualified_by
        | true ↦ record {
          provider_id = provider.provider_id;
          provider_name = provider.provider_name;
          matched_tier = some tier.tier_name;
          federal_price = tier.federal_price;
          state_price = tier.state_price;
          matched_conditions = matched_conditions tier s;
          disqualified_by = disqualified_by;
        }
      ]
    ]

unfoldable pub evaluate_provider : TaxSituation → ProviderDefinition → ProviderEvaluation
unfolding place
evaluate_provider s provider = place provider s provider.tiers []

unfoldable pub evaluate_tier_placement :
    TaxSituation → List ProviderDefinition → TierEvaluationResult
unfolding evaluate_provider
evaluate_tier_placement s provider_list = record {
  evaluations = map (evaluate_provider s) provider_list;
}

-- The call with the default for `providerList`.
unfoldable pub evaluate_all : TaxSituation → TierEvaluationResult
unfolding evaluate_tier_placement
evaluate_all s = evaluate_tier_placement s providers
