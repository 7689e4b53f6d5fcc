-- ===== src/Tier/Providers/FreeTaxUsa.antt =====
-- The FreeTaxUSA tiers of tier-mapping.ts, from most complex to simplest. Prices are in cents.
use tea_tax_product.Prelude.{true, some, [], ◌∷◌}
use tea_tax_product.Tier.Types.{ProviderTier, ProviderDefinition, exists, flag}
use tea_tax_product.Tier.Conditions.{needs_support}

abbrev pub tier_deluxe : ProviderTier
tier_deluxe = record {
  tier_name = "Deluxe";
  federal_price = some 0;
  state_price = some 1499;
  qualifying_conditions =
      record {
        field = "incomeStreams";
        operator = exists;
        value = flag true;
        description =
            "Has any income requiring support/audit add-on (complex return: investments, self-employment, rental)";
        evaluate = needs_support;
      }
      ∷ [];
  disqualifying_conditions = [];
}

abbrev pub tier_free : ProviderTier
tier_free = record {
  tier_name = "Free";
  federal_price = some 0;
  state_price = some 1499;
  qualifying_conditions =
      record {
        field = "incomeStreams";
        operator = exists;
        value = flag true;
        description =
            "Any federal return — FreeTaxUSA offers free federal filing for all supported situations";
        evaluate = λ _. true;
      }
      ∷ [];
  disqualifying_conditions = [];
}

abbrev pub free_tax_usa : ProviderDefinition
free_tax_usa = record {
  provider_id = "freetaxusa";
  provider_name = "FreeTaxUSA";
  tiers = tier_deluxe ∷ tier_free ∷ [];
}
