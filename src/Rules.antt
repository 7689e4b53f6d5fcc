-- ===== src/Rules.antt =====
-- packages/core/knowledge-base/validation-rules.ts: the validation rules, a module for each category.
pub mod Types
pub mod Helpers
pub mod Missing
pub mod Contradiction
pub mod Implausible
pub mod IncompleteChain
pub mod Threshold
pub mod Exclusions
pub mod EarnedIncome
use tea_tax_product.Prelude.{String, Option, List, [], ◌∷◌}
use tea_tax_product.Prelude.Number.{Number}
use Types.{ValidationRuleDefinition}
use Missing.{missing_schedule_c, missing_schedule_se, missing_schedule_d, missing_schedule_e}
use Contradiction.{
  contradiction_single_with_dependent_spouse, contradiction_hoh_without_qualifying_dependent,
  contradiction_mfs_with_eitc,
}
use Implausible.{
  implausible_negative_agi_without_capital_loss_docs, implausible_w2_wages_over_10m,
  implausible_negative_withholding, implausible_dependent_over_24_for_ctc,
}
use IncompleteChain.{
  incomplete_chain_schedule_d_without_form_8949, incomplete_chain_itemized_without_schedule_a,
  incomplete_chain_schedule_c_without_business_income,
}
use Threshold.{
  threshold_free_file_agi_exceeded, threshold_eitc_above_qualifying_agi,
  threshold_se_net_below_400_with_se,
}

-- `birth_year` stands for the date parser of the runtime, which reads the local time zone.
unfoldable pub validation_rules : (String → Option Number) → List ValidationRuleDefinition
validation_rules birth_year =
    missing_schedule_c
    ∷ missing_schedule_se
    ∷ missing_schedule_d
    ∷ missing_schedule_e
    ∷ contradiction_single_with_dependent_spouse
    ∷ contradiction_hoh_without_qualifying_dependent
    ∷ contradiction_mfs_with_eitc
    ∷ implausible_negative_agi_without_capital_loss_docs
    ∷ implausible_w2_wages_over_10m
    ∷ implausible_negative_withholding
    ∷ implausible_dependent_over_24_for_ctc birth_year
    ∷ incomplete_chain_schedule_d_without_form_8949
    ∷ incomplete_chain_itemized_without_schedule_a
    ∷ incomplete_chain_schedule_c_without_business_income
    ∷ threshold_free_file_agi_exceeded
    ∷ threshold_eitc_above_qualifying_agi
    ∷ threshold_se_net_below_400_with_se
    ∷ []
