-- ===== src/Thresholds.antt =====
-- packages/core/knowledge-base/thresholds.ts: the tax code thresholds, by tax year.
use tea_tax_product.Prelude.{
  ℕ, String, Option, none, some, List, [], ◌∷◌, if◌then◌else◌, ◌==◌, ◌&&◌, ◌*◌,
}
use tea_tax_product.Prelude.Int.{pos_part, neg_part}
use tea_tax_product.Prelude.Number.{Number, whole}
use tea_tax_product.TaxSituation.Unions.{
  FilingStatus, single, married_filing_jointly, married_filing_separately, head_of_household,
  qualifying_surviving_spouse,
}

-- `estimated_tax_safe_harbor` is in hundredths; nothing reads it.
pub record TaxYearThresholds : Type 0 where
  pub tax_year : Number
  pub standard_deduction : FilingStatus → Number
  pub free_file_agi_limit : Number
  pub self_employment_threshold : Number
  pub eitc_thresholds : List (String × Number)
  pub capital_loss_limit : Number
  pub capital_loss_limit_mfs : Number
  pub estimated_tax_safe_harbor : ℕ
  pub schedule_b_threshold : Number
  pub child_tax_credit_amount : Number
  pub child_tax_credit_phase_out_start : FilingStatus → Number

abbrev pub standard_deduction_2025 : FilingStatus → Number
standard_deduction_2025 single = whole 15000
standard_deduction_2025 married_filing_jointly = whole 30000
standard_deduction_2025 married_filing_separately = whole 15000
standard_deduction_2025 head_of_household = whole 22500
standard_deduction_2025 qualifying_surviving_spouse = whole 30000

abbrev pub phase_out_start_2025 : FilingStatus → Number
phase_out_start_2025 single = whole 200000
phase_out_start_2025 married_filing_jointly = whole 400000
phase_out_start_2025 married_filing_separately = whole 200000
phase_out_start_2025 head_of_household = whole 200000
phase_out_start_2025 qualifying_surviving_spouse = whole 200000

abbrev pub eitc_thresholds_2025 : List (String × Number)
eitc_thresholds_2025 =
    ("single_0", whole 18591)
    ∷ ("single_1", whole 49084)
    ∷ ("single_2", whole 55768)
    ∷ ("single_3plus", whole 59899)
    ∷ ("head_of_household_0", whole 18591)
    ∷ ("head_of_household_1", whole 49084)
    ∷ ("head_of_household_2", whole 55768)
    ∷ ("head_of_household_3plus", whole 59899)
    ∷ ("qualifying_surviving_spouse_0", whole 18591)
    ∷ ("qualifying_surviving_spouse_1", whole 49084)
    ∷ ("qualifying_surviving_spouse_2", whole 55768)
    ∷ ("qualifying_surviving_spouse_3plus", whole 59899)
    ∷ ("married_filing_jointly_0", whole 25511)
    ∷ ("married_filing_jointly_1", whole 56004)
    ∷ ("married_filing_jointly_2", whole 62688)
    ∷ ("married_filing_jointly_3plus", whole 66819)
    ∷ []

unfoldable pub thresholds_2025 : TaxYearThresholds
thresholds_2025 = record {
  tax_year = whole 2025;
  standard_deduction = standard_deduction_2025;
  free_file_agi_limit = whole 84000;
  self_employment_threshold = whole 400;
  eitc_thresholds = eitc_thresholds_2025;
  capital_loss_limit = whole 3000;
  capital_loss_limit_mfs = whole 1500;
  estimated_tax_safe_harbor = 90;
  schedule_b_threshold = whole 1500;
  child_tax_credit_amount = whole 2000;
  child_tax_credit_phase_out_start = phase_out_start_2025;
}

-- `thresholdsByYear[year]`: the index has the one key 2025
unfoldable pub thresholds_by_year : Number → Option TaxYearThresholds
thresholds_by_year year =
    if pos_part year == 2025 * 65536 && neg_part year == 0 then some thresholds_2025 else none
