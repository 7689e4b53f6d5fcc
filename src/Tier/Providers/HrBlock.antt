-- ===== src/Tier/Providers/HrBlock.antt =====
-- The H&R Block tiers of tier-mapping.ts, from most complex to simplest. Prices are in cents.
use tea_tax_product.Prelude.{true, some, [], ◌∷◌}
use tea_tax_product.Tier.Types.{
  ProviderTier, ProviderDefinition, any_element_equals, exists, flag, one_of,
}
use tea_tax_product.Tier.Conditions.{
  has_complex_income, has_itemized_deduction, has_premium_income, has_self_employment_income,
  is_simple_return,
}

abbrev pub tier_self_employed : ProviderTier
tier_self_employed = record {
  tier_name = "Self-Employed";
  federal_price = some 11000;
  state_price = some 3700;
  qualifying_conditions =
      record {
        field = "incomeStreams[].type";
        operator = any_element_equals;
        value = one_of ("1099_nec" ∷ "1099_misc" ∷ []);
        description = "Has freelance or self-employment income (1099-NEC or 1099-MISC)";
        evaluate = has_self_employment_income;
      }
      ∷ [];
  disqualifying_conditions = [];
}

abbrev pub tier_premium : ProviderTier
tier_premium = record {
  tier_name = "Premium";
  federal_price = some 8500;
  state_price = some 3700;
  qualifying_conditions =
      record {
        field = "incomeStreams[].type";
        operator = any_element_equals;
        value = one_of ("1099_b" ∷ "1099_div" ∷ "1099_int" ∷ "k1" ∷ "rental" ∷ []);
        description = "Has investment income (1099-B, 1099-DIV), rental income, or K-1 income";
        evaluate = has_premium_income;
      }
      ∷ [];
  disqualifying_conditions =
      record {
        field = "incomeStreams[].type";
        operator = any_element_equals;
        value = one_of ("1099_nec" ∷ "1099_misc" ∷ []);
        description = "Has self-employment income — routes to Self-Employed tier instead";
        evaluate = has_self_employment_income;
      }
      ∷ [];
}

abbrev pub tier_deluxe : ProviderTier
tier_deluxe = record {
  tier_name = "Deluxe";
  federal_price = some 5500;
  state_price = some 3700;
  qualifying_conditions =
      record {
        field = "deductions";
        operator = exists;
        value = flag true;
        description =
            "Has deductions or credits requiring Deluxe (mortgage, HSA, child/dependent care)";
        evaluate = has_itemized_deduction;
      }
      ∷ [];
  disqualifying_conditions =
      record {
        field = "incomeStreams[].type";
        operator = any_element_equals;
        value = one_of ("1099_nec" ∷ "1099_misc" ∷ "1099_b" ∷ "1099_div" ∷ "k1" ∷ "rental" ∷ []);
        description = "Has complex income — routes to Premium or Self-Employed tier";
        evaluate = has_complex_income;
      }
      ∷ [];
}

abbrev pub tier_free_online : ProviderTier
tier_free_online = record {
  tier_name = "Free Online";
  federal_price = some 0;
  state_price = some 0;
  qualifying_conditions =
      record {
        field = "incomeStreams";
        operator = exists;
        value = flag true;
        description = "W-2 income only or simple return without complex deductions";
        evaluate = is_simple_return;
      }
      ∷ [];
  disqualifying_conditions =
      record {
        field = "incomeStreams[].type";
        operator = any_element_equals;
        value = one_of ("1099_nec" ∷ "1099_misc" ∷ "1099_b" ∷ "1099_div" ∷ "k1" ∷ "rental" ∷ []);
        description = "Has income types requiring Deluxe or higher";
        evaluate = has_complex_income;
      }
      ∷ record {
        field = "deductions";
        operator = exists;
        value = flag true;
        description = "Has itemized deductions requiring Deluxe or higher";
        evaluate = has_itemized_deduction;
      }
      ∷ [];
}

abbrev pub hr_block : ProviderDefinition
hr_block = record {
  provider_id = "hrblock";
  provider_name = "H&R Block";
  tiers = tier_self_employed ∷ tier_premium ∷ tier_deluxe ∷ tier_free_online ∷ [];
}
