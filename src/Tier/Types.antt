-- ===== src/Tier/Types.antt =====
-- The declarations of tier-mapping.ts: conditions, tiers, providers.
use tea_tax_product.Prelude.{ℕ, String, Bool, Option, List}
use tea_tax_product.TaxSituation.{TaxSituation}

pub data Operator : Type 0 where
  equals contains gt lt exists not_exists any_element_equals : Operator

-- `value: unknown`; the providers use `true` and lists of strings
pub data ConditionValue : Type 0 where
  flag : Bool → ConditionValue
  one_of : List String → ConditionValue

pub record TierCondition : Type 0 where
  pub field : String
  pub operator : Operator
  pub value : ConditionValue
  pub description : String
  pub evaluate : TaxSituation → Bool

-- Prices are in cents.
pub record ProviderTier : Type 0 where
  pub tier_name : String
  pub federal_price : Option ℕ
  pub state_price : Option ℕ
  pub qualifying_conditions : List TierCondition
  pub disqualifying_conditions : List TierCondition

pub record ProviderDefinition : Type 0 where
  pub provider_id : String
  pub provider_name : String
  pub tiers : List ProviderTier
