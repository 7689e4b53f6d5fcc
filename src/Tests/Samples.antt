-- ===== src/Tests/Samples.antt =====
-- The situations that the tests are about.
use tea_tax_product.Prelude.{String, true, Option, none, List, [], ◌∷◌}
use tea_tax_product.Prelude.Number.{Number, whole}
use tea_tax_product.Prelude.Int.{pos}
use tea_tax_product.TaxSituation.{
  TaxSituation, IncomeStream, Deduction, Credit, Dependent, Form1099Data,
}
use tea_tax_product.TaxSituation.Unions.{
  FilingStatus, IncomeStreamType, single, w2, form_1099_nec, form_1099_b, rental, earned_income,
  individual, us_ca,
}

abbrev pub stream : IncomeStreamType → Number → Option Form1099Data → IncomeStream
stream t n details = record {
  type = t;
  source = "Acme";
  amount = n;
  employer_ein = none;
  documentation = [];
  w2_data = none;
  form1099_data = details;
}

abbrev pub child : Dependent
child = record {
  first_name = "Sam";
  last_name = "Poe";
  relationship = "Wife";
  date_of_birth = "1990-05-01";
  ssn_last4 = none;
  qualifies_for_child_tax_credit = true;
  qualifies_for_eic = true;
}

abbrev pub situation :
    FilingStatus → List Dependent → List IncomeStream → List Deduction → List Credit → TaxSituation
situation status deps streams deds creds = record {
  id = "s-1";
  version = "1";
  filing_year = whole 2025;
  filing_status = status;
  dependents = deps;
  income_streams = streams;
  deductions = deds;
  credits = creds;
  life_events = [];
  prior_year_context = none;
  state_residency = record { primary = us_ca; additional = [] };
  documentation_completeness = pos 32768;
  confidence_scores = record {
    overall = pos 20000;
    per_field = ("filingStatus", pos 60000) ∷ ("incomeStreams", pos 10000) ∷ [];
  };
  raw_artifacts = [];
  metadata = record {
    created_at = "2025-01-01";
    updated_at = "2025-01-01";
    object_type = individual;
    schema_version = "1";
  };
}

-- Wages alone.
abbrev pub employee : TaxSituation
employee = situation single [] (stream w2 (whole 50000) none ∷ []) [] []

-- Self-employed, with sales of stock without data, rent, and a wife as a dependent.
abbrev pub freelancer : TaxSituation
freelancer =
    situation single (child ∷ [])
      (stream form_1099_nec (whole 90000) none
        ∷ stream form_1099_b (whole 100) none
        ∷ stream rental (whole 1200) none
        ∷ [])
      [] (record { type = earned_income; amount = whole 500; documentation = [] } ∷ [])

-- No date is read.
abbrev pub no_dates : String → Option Number
no_dates date = none
