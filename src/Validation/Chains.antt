-- ===== src/Validation/Chains.antt =====
-- Where the validation rules and the form taxonomy meet.
use tea_tax_product.Prelude.{
  String, ◌≡◌, refl, Bool, true, false, Option, List, arith, bool_laws, ◌||◌, ◌&&◌,
}
use tea_tax_product.Prelude.Enum.{◌===◌, includes, In, string_eq, includes-cons, includes-nil}
use tea_tax_product.Prelude.Number.{Number}
use tea_tax_product.TaxSituation.{TaxSituation}
use tea_tax_product.TaxSituation.Unions.{
  form_1099_nec, form_1099_misc, form_1099_b, rental, k1, income_stream_type_eq,
}
use tea_tax_product.Rules.Helpers.{has_income_type}
use tea_tax_product.Rules.Missing.{
  check_missing_schedule_c, check_missing_schedule_se, check_missing_schedule_d,
  check_missing_schedule_e,
}
use tea_tax_product.Taxonomy.RequiredForms.{forms_table, on, required_forms_table}
use tea_tax_product.Validation.Engine.{validate}

includes-on :
    (b : Bool) (y : String) (rest : List String) (x : String)
    → includes (on b y rest) x ≡ ((b && y === x) || includes rest x)
includes-on true y rest x = includes-cons y rest x
includes-on false y rest x = refl

module _ (wages business sales rent itemized interest dividends : Bool) where
  -- The forms that the kinds of income ask for.
  includes-forms_table :
      (includes (forms_table wages business sales rent itemized interest dividends) "schedule-c"
        ≡ business)
      × (includes (forms_table wages business sales rent itemized interest dividends) "schedule-se"
          ≡ business)
      × (includes (forms_table wages business sales rent itemized interest dividends) "schedule-d"
          ≡ sales)
      × (includes (forms_table wages business sales rent itemized interest dividends) "form-8949"
          ≡ sales)
      × (includes (forms_table wages business sales rent itemized interest dividends) "schedule-e"
          ≡ rent)
  includes-forms_table =
      simp (includes-on, includes-cons, includes-nil, bool_laws) (refl, refl, refl, refl, refl)

module _ (birth_year : String → Option Number) (s : TaxSituation) where
  -- Which of these forms the result of a validation requires.
  forms_required_lem :
      (includes (validate birth_year s).forms_required "schedule-c"
        ≡ (has_income_type s form_1099_nec || has_income_type s form_1099_misc))
      × (includes (validate birth_year s).forms_required "schedule-se"
          ≡ (has_income_type s form_1099_nec || has_income_type s form_1099_misc))
      × (includes (validate birth_year s).forms_required "schedule-d"
          ≡ has_income_type s form_1099_b)
      × (includes (validate birth_year s).forms_required "form-8949"
          ≡ has_income_type s form_1099_b)
      × (includes (validate birth_year s).forms_required "schedule-e"
          ≡ (has_income_type s rental || has_income_type s k1))
  unfolding validate
  forms_required_lem = rw (required_forms_table s) (includes-forms_table _ _ _ _ _ _ _)

  -- A missing Schedule C or Schedule SE is reported only of a situation that requires both forms.
  pub schedule_c-forms_required :
      (check_missing_schedule_c s || check_missing_schedule_se s) ≡ true
      → In "schedule-c" (validate birth_year s).forms_required
        × In "schedule-se" (validate birth_year s).forms_required
  unfolding check_missing_schedule_c check_missing_schedule_se
  schedule_c-forms_required h = ground (arith, forms_required_lem)

  -- A missing Schedule D is reported only of a situation that requires it and Form 8949.
  pub schedule_d-forms_required :
      check_missing_schedule_d s ≡ true
      → In "schedule-d" (validate birth_year s).forms_required
        × In "form-8949" (validate birth_year s).forms_required
  unfolding check_missing_schedule_d
  schedule_d-forms_required h = ground (arith, forms_required_lem)

  -- A missing Schedule E is reported only of a situation that requires it.
  pub schedule_e-forms_required :
      check_missing_schedule_e s ≡ true → In "schedule-e" (validate birth_year s).forms_required
  unfolding check_missing_schedule_e
  schedule_e-forms_required h = ground (arith, forms_required_lem)
