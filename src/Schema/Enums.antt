-- ===== src/Schema/Enums.antt =====
-- The arrays of words in packages/core/tax-situation-schema.ts.
use tea_tax_product.Prelude.{String, List, [], ◌∷◌}

unfoldable pub filing_status_enum : List String
filing_status_enum =
    "single" ∷ "married_filing_jointly" ∷ "married_filing_separately" ∷ "head_of_household"
    ∷ "qualifying_surviving_spouse" ∷ []

unfoldable pub income_stream_type_enum : List String
income_stream_type_enum =
    "w2" ∷ "1099_nec" ∷ "1099_misc" ∷ "1099_b" ∷ "1099_div" ∷ "1099_int" ∷ "1099_r" ∷ "k1"
    ∷ "rental" ∷ "other" ∷ []

unfoldable pub deduction_type_enum : List String
deduction_type_enum =
    "standard" ∷ "mortgage_interest" ∷ "state_local_taxes" ∷ "charitable" ∷ "medical"
    ∷ "student_loan_interest" ∷ "educator_expense" ∷ "other" ∷ []

unfoldable pub credit_type_enum : List String
credit_type_enum =
    "child_tax" ∷ "earned_income" ∷ "education_american_opportunity" ∷ "education_lifetime_learning"
    ∷ "child_dependent_care" ∷ "saver" ∷ "other" ∷ []

unfoldable pub life_event_type_enum : List String
life_event_type_enum =
    "marriage" ∷ "divorce" ∷ "birth" ∷ "adoption" ∷ "death_of_spouse" ∷ "home_purchase"
    ∷ "home_sale" ∷ "job_change" ∷ "retirement" ∷ "other" ∷ []

unfoldable pub tax_object_type_enum : List String
tax_object_type_enum =
    "individual" ∷ "joint_household" ∷ "business" ∷ "dependent" ∷ "estate_or_trust" ∷ []

unfoldable pub state_code_enum : List String
state_code_enum =
    "AL" ∷ "AK" ∷ "AZ" ∷ "AR" ∷ "CA" ∷ "CO" ∷ "CT" ∷ "DE" ∷ "FL" ∷ "GA" ∷ "HI" ∷ "ID" ∷ "IL" ∷ "IN"
    ∷ "IA" ∷ "KS" ∷ "KY" ∷ "LA" ∷ "ME" ∷ "MD" ∷ "MA" ∷ "MI" ∷ "MN" ∷ "MS" ∷ "MO" ∷ "MT" ∷ "NE"
    ∷ "NV" ∷ "NH" ∷ "NJ" ∷ "NM" ∷ "NY" ∷ "NC" ∷ "ND" ∷ "OH" ∷ "OK" ∷ "OR" ∷ "PA" ∷ "RI" ∷ "SC"
    ∷ "SD" ∷ "TN" ∷ "TX" ∷ "UT" ∷ "VT" ∷ "VA" ∷ "WA" ∷ "WV" ∷ "WI" ∷ "WY" ∷ "DC" ∷ "AS" ∷ "GU"
    ∷ "MP" ∷ "PR" ∷ "VI" ∷ []

unfoldable pub artifact_type_enum : List String
artifact_type_enum = "document" ∷ "photo" ∷ "recording" ∷ []

unfoldable pub prior_year_filing_method_enum : List String
prior_year_filing_method_enum = "self_prepared" ∷ "tax_professional" ∷ "volunteer" ∷ "unknown" ∷ []
