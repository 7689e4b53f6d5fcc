-- ===== src/Tier/Providers/CashApp.antt =====
-- The Cash App Taxes tiers of tier-mapping.ts, from most complex to simplest. Prices are in cents.
use tea_tax_product.Prelude.{true, some, [], ◌∷◌}
use tea_tax_product.Tier.Types.{
  ProviderTier, ProviderDefinition, any_element_equals, exists, flag, one_of,
}
use tea_tax_product.Tier.Conditions.{has_k1_income}

abbrev pub tier_free : ProviderTier
tier_free = record {
  tier_name = "Free";
  federal_price = some 0;
  state_price = some 0;
  qualifying_conditions =
      record {
        field = "incomeStreams";
        operator = exists;
        value = flag true;
        description = "Any supported return — Cash App Taxes is free for all supported situations";
        evaluate = λ _. true;
      }
      ∷ [];
  disqualifying_conditions =
      record {
        field = "incomeStreams[].type";
        operator = any_element_equals;
        value = one_of ("k1" ∷ []);
        description = "Has K-1 income — Cash App Taxes does not support Schedule K-1";
        evaluate = has_k1_income;
      }
      ∷ [];
}

abbrev pub cash_app_taxes : ProviderDefinition
cash_app_taxes = record {
  provider_id = "cashapp";
  provider_name = "Cash App Taxes";
  tiers = tier_free ∷ [];
}
