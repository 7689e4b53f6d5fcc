-- ===== src/Taxonomy/Trigger/Shipped.antt =====
-- When the shipped forms are triggered.
use tea_tax_product.Prelude.{◌≡◌, refl, true, ◌||◌, arith}
use tea_tax_product.Prelude.Enum.{string_eq}
use tea_tax_product.TaxSituation.{TaxSituation}
use tea_tax_product.TaxSituation.Tags.{income_stream_type_tag, deduction_type_tag}
use tea_tax_product.TaxSituation.Unions.{
  w2, form_1099_nec, form_1099_misc, form_1099_b, form_1099_div, form_1099_int, k1, rental,
  mortgage_interest, charitable, medical, state_local_taxes,
}
use tea_tax_product.Rules.Helpers.{has_income_type, has_deduction_type}
use tea_tax_product.Taxonomy.Forms.{
  form_1040, form_w_2, form_schedule_c, form_schedule_se, form_schedule_d, form_8949,
  form_schedule_e, form_schedule_a, form_schedule_b, form_1099_div as div_form,
  form_1099_int as int_form, form_state_return,
}
use tea_tax_product.Taxonomy.Trigger.{is_triggered, evaluate_rule}
use tea_tax_product.Taxonomy.Trigger.Conditions.{income_rule, deduction_rule}

-- When the rules of each form fire.
module _ (s : TaxSituation) where
  pub form_1040-triggered : is_triggered form_1040 s ≡ true
  unfolding is_triggered evaluate_rule
  form_1040-triggered = refl

  pub state_return-triggered : is_triggered form_state_return s ≡ true
  unfolding is_triggered evaluate_rule tea_tax_product.TaxSituation.Values.state_residency_value
  state_return-triggered = refl

  pub w_2-triggered : is_triggered form_w_2 s ≡ (has_income_type s w2)
  unfolding is_triggered income_stream_type_tag
  w_2-triggered = ground (arith, income_rule s "W-2 income present in incomeStreams" w2)

  pub schedule_c-triggered :
      is_triggered form_schedule_c s
      ≡ (has_income_type s form_1099_nec || has_income_type s form_1099_misc)
  unfolding is_triggered income_stream_type_tag
  schedule_c-triggered = ground (
    arith,
    income_rule s "1099-NEC income present — indicates self-employment / freelance income"
        form_1099_nec,
    income_rule s "1099-MISC other income present — may indicate self-employment" form_1099_misc,
  )

  pub schedule_se-triggered :
      is_triggered form_schedule_se s
      ≡ (has_income_type s form_1099_nec || has_income_type s form_1099_misc)
  unfolding is_triggered income_stream_type_tag
  schedule_se-triggered = ground (
    arith,
    income_rule s "1099-NEC income present — self-employment tax always accompanies Schedule C"
        form_1099_nec,
    income_rule s "1099-MISC income present — self-employment tax accompanies Schedule C"
        form_1099_misc,
  )

  pub schedule_d-triggered : is_triggered form_schedule_d s ≡ (has_income_type s form_1099_b)
  unfolding is_triggered income_stream_type_tag
  schedule_d-triggered = ground (
    arith,
    income_rule s "1099-B proceeds present — indicates capital asset transactions" form_1099_b,
  )

  pub form_8949-triggered : is_triggered form_8949 s ≡ (has_income_type s form_1099_b)
  unfolding is_triggered income_stream_type_tag
  form_8949-triggered = ground (
    arith,
    income_rule s "1099-B proceeds present — Form 8949 always accompanies Schedule D" form_1099_b,
  )

  pub schedule_e-triggered :
      is_triggered form_schedule_e s ≡ (has_income_type s rental || has_income_type s k1)
  unfolding is_triggered income_stream_type_tag
  schedule_e-triggered = ground (
    arith,
    income_rule s "Rental income present in incomeStreams" rental,
    income_rule s "K-1 partnership or S-corp income present in incomeStreams" k1,
  )

  pub schedule_a-triggered : is_triggered form_schedule_a s ≡ (
      has_deduction_type s mortgage_interest
      || has_deduction_type s charitable
      || has_deduction_type s medical
      || has_deduction_type s state_local_taxes)
  unfolding is_triggered deduction_type_tag
  schedule_a-triggered = ground (
    arith,
    deduction_rule s "Mortgage interest deduction indicates itemizing" mortgage_interest,
    deduction_rule s "Charitable contribution deduction indicates itemizing" charitable,
    deduction_rule s "Medical expense deduction indicates itemizing" medical,
    deduction_rule s "State and local tax deduction (SALT) indicates itemizing" state_local_taxes,
  )

  pub schedule_b-triggered :
      is_triggered form_schedule_b s
      ≡ (has_income_type s form_1099_int || has_income_type s form_1099_div)
  unfolding is_triggered income_stream_type_tag
  schedule_b-triggered = ground (
    arith,
    income_rule s "1099-INT interest income present" form_1099_int,
    income_rule s "1099-DIV dividend income present" form_1099_div,
  )

  pub div_form-triggered : is_triggered div_form s ≡ (has_income_type s form_1099_div)
  unfolding is_triggered income_stream_type_tag
  div_form-triggered = ground (arith, income_rule s "Dividend income stream present" form_1099_div)

  pub int_form-triggered : is_triggered int_form s ≡ (has_income_type s form_1099_int)
  unfolding is_triggered income_stream_type_tag
  int_form-triggered = ground (arith, income_rule s "Interest income stream present" form_1099_int)
