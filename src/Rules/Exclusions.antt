-- ===== src/Rules/Exclusions.antt =====
-- Rules of validation-rules.ts that exclude or imply one another.
use tea_tax_product.Prelude.{
  ◌≡◌, refl, inl, inr, Bool, true, false, not, ◌&&◌, Option, none, some, List, [], ◌∷◌, arith, any,
  filter, length, if◌then◌else◌, Bool-cases, ◌==◌,
}
use tea_tax_product.Prelude.Enum.{◌===◌}
use tea_tax_product.Prelude.Int.{ltb_ℤ}
use tea_tax_product.Prelude.Number.{gt, whole}
use tea_tax_product.Thresholds.{thresholds_2025}
use tea_tax_product.TaxSituation.{TaxSituation, IncomeStream, Form1099Data}
use tea_tax_product.TaxSituation.Unions.{
  form_1099_nec, form_1099_b, income_stream_type_eq, filing_status_eq, FilingStatus, single,
  head_of_household, married_filing_separately,
}
use tea_tax_product.Rules.Helpers.{income_by_type, has_income_type, net_self_employment_income}
use tea_tax_product.Rules.Helpers.Laws.{thresholds_for_lem, income_by_type-absent}
use tea_tax_product.Rules.Missing.{
  check_missing_schedule_c, check_missing_schedule_se, check_missing_schedule_d, has_proceeds,
}
use tea_tax_product.Rules.Contradiction.{
  check_contradiction_single_with_dependent_spouse,
  check_contradiction_hoh_without_qualifying_dependent, check_contradiction_mfs_with_eitc,
}
use tea_tax_product.Rules.IncompleteChain.{
  lacks_8949_data, check_incomplete_chain_schedule_d_without_form_8949,
  check_incomplete_chain_itemized_without_schedule_a,
  check_incomplete_chain_schedule_c_without_business_income,
}
use tea_tax_product.Rules.Threshold.{check_threshold_se_net_below_400_with_se}

net-absent :
    (s : TaxSituation)
    → has_income_type s form_1099_nec ≡ false
    → net_self_employment_income s ≡ whole 0
unfolding net_self_employment_income
net-absent s h = income_by_type-absent s form_1099_nec h

-- Both rules on self-employment tax depend on the sum of the 1099-NEC amounts alone: the missing schedule
-- is reported above $400, and the needless one strictly between $0 and $400. The test for a 1099-NEC
-- stream that either of them makes as well changes nothing.
pub schedule_se_rules :
    (s : TaxSituation)
    → (check_missing_schedule_se s ≡ gt (income_by_type s form_1099_nec) (whole 400))
      × (check_threshold_se_net_below_400_with_se s ≡ (
          gt (income_by_type s form_1099_nec) (whole 0)
          && ltb_ℤ (income_by_type s form_1099_nec) (whole 400)))
unfolding check_missing_schedule_se check_threshold_se_net_below_400_with_se
    net_self_employment_income thresholds_2025
schedule_se_rules s = elim (Bool-cases (has_income_type s form_1099_nec)) [
  | inl h ↦ rw (thresholds_for_lem s, h) (ground arith, refl)
  | inr h ↦ rw (thresholds_for_lem s, h, income_by_type-absent s form_1099_nec h) (refl, refl)
]

lacks-proceeds : (d : Option Form1099Data) → has_proceeds d ≡ false → lacks_8949_data d ≡ true
unfolding has_proceeds lacks_8949_data
lacks-proceeds none h = refl
lacks-proceeds (some d) h = ground arith

no_proceeds :
    (xs : List IncomeStream)
    → any (λ x. x.type === form_1099_b) xs ≡ true
    → any (λ x. x.type === form_1099_b && has_proceeds x.form1099_data) xs ≡ false
    → any (λ x. lacks_8949_data x.form1099_data) (filter (λ x. x.type === form_1099_b) xs) ≡ true
unfolding any filter
no_proceeds [] h g = h
no_proceeds (x ∷ xs) h g = ground (arith, lacks-proceeds x.form1099_data, no_proceeds xs)

any-nonempty :
    (p : IncomeStream → Bool) (xs : List IncomeStream) → any p xs ≡ true → (length xs == 0) ≡ false
unfolding any
any-nonempty p [] h = cc
any-nonempty p (x ∷ xs) h = ground arith

-- A missing Schedule D is always reported together with a Form 8949 that cannot be completed.
pub missing_schedule_d-incomplete :
    (s : TaxSituation)
    → check_missing_schedule_d s ≡ true
    → check_incomplete_chain_schedule_d_without_form_8949 s ≡ true
unfolding check_missing_schedule_d check_incomplete_chain_schedule_d_without_form_8949
    has_income_type
missing_schedule_d-incomplete s h = ground (
  arith,
  no_proceeds s.income_streams,
  any-nonempty (λ x. lacks_8949_data x.form1099_data)
      (filter (λ x. x.type === form_1099_b) s.income_streams),
)

at_most_one :
    (t : FilingStatus) (a b c : Bool)
    → (((if not (t === single) then false else a)
          && (if not (t === head_of_household) then false else b))
        ≡ false)
      × (((if not (t === single) then false else a)
            && (if not (t === married_filing_separately) then false else c))
          ≡ false)
      × (((if not (t === head_of_household) then false else b)
            && (if not (t === married_filing_separately) then false else c))
          ≡ false)
at_most_one t a b c = ground arith

-- The three rules on the filing status: at most one of them is violated.
pub filing_status_rules :
    (s : TaxSituation)
    → ((check_contradiction_single_with_dependent_spouse s
          && check_contradiction_hoh_without_qualifying_dependent s)
        ≡ false)
      × ((check_contradiction_single_with_dependent_spouse s && check_contradiction_mfs_with_eitc s)
          ≡ false)
      × ((check_contradiction_hoh_without_qualifying_dependent s
            && check_contradiction_mfs_with_eitc s)
          ≡ false)
unfolding check_contradiction_single_with_dependent_spouse
    check_contradiction_hoh_without_qualifying_dependent check_contradiction_mfs_with_eitc
filing_status_rules s = at_most_one s.filing_status _ _ _

-- Where a Schedule C is reported missing, neither business deductions without business income nor
-- itemized deductions without a Schedule A are reported.
pub schedule_c_rules :
    (s : TaxSituation)
    → check_missing_schedule_c s ≡ true
    → (check_incomplete_chain_schedule_c_without_business_income s ≡ false)
      × (check_incomplete_chain_itemized_without_schedule_a s ≡ false)
unfolding check_missing_schedule_c check_incomplete_chain_schedule_c_without_business_income
    check_incomplete_chain_itemized_without_schedule_a
schedule_c_rules s h = ground arith
