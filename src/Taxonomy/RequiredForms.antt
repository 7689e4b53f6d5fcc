-- ===== src/Taxonomy/RequiredForms.antt =====
-- The forms that the shipped taxonomy requires of a situation, in closed form.
use tea_tax_product.Prelude.{
  String, ◌≡◌, refl, ap, ◌∙◌, Bool, true, false, ◌&&◌, ◌||◌, List, [], ◌∷◌, map, some, none, arith,
  if◌then◌else◌,
}
use tea_tax_product.Prelude.Enum.{◌===◌, string_eq, includes}
use tea_tax_product.TaxSituation.{TaxSituation}
use tea_tax_product.TaxSituation.Unions.{
  w2, form_1099_nec, form_1099_misc, form_1099_b, form_1099_div, form_1099_int, k1, rental,
  mortgage_interest, charitable, medical, state_local_taxes,
}
use tea_tax_product.Rules.Helpers.{has_income_type, has_deduction_type}
use tea_tax_product.Taxonomy.Types.{FormDefinition}
use tea_tax_product.Taxonomy.Forms.{form_taxonomy}
use tea_tax_product.Taxonomy.Trigger.{is_triggered}
use tea_tax_product.Taxonomy.Traversal.{Search, visit, seed, walk, required_forms, walk_fuel, sort}
use tea_tax_product.Taxonomy.Trigger.Shipped.{
  form_1040-triggered, state_return-triggered, w_2-triggered, schedule_c-triggered,
  schedule_se-triggered, schedule_d-triggered, form_8949-triggered, schedule_e-triggered,
  schedule_a-triggered, schedule_b-triggered, div_form-triggered, int_form-triggered,
}

-- An id, if a condition holds.
abbrev pub on : Bool → String → List String → List String
on true id ids = id ∷ ids
on false id ids = ids

-- `seed` reads a form only through whether it is triggered.
seed_from : List Bool → Search → List FormDefinition → Search
seed_from bits w [] = w
seed_from [] w (form ∷ forms) = w
seed_from (bit ∷ bits) w (form ∷ forms) =
    seed_from bits (if bit then visit w form.form_id else w) forms

seed-seed_from :
    (s : TaxSituation) (w : Search) (forms : List FormDefinition)
    → seed s w forms ≡ seed_from (map (λ form. is_triggered form s) forms) w forms
unfolding seed seed_from
seed-seed_from s w [] = refl
seed-seed_from s w (form ∷ forms) =
    seed-seed_from s (if is_triggered form s then visit w form.form_id else w) forms

-- The rest of the traversal, from the seeds.
finish : Search → List String
finish w = elim (walk form_taxonomy (walk_fuel form_taxonomy w) w.required w.queue) [
  | some ids ↦ sort ids
  | none ↦ []
]

forms_from : List Bool → List String
unfolding finish
forms_from bits = finish (seed_from bits (record { required = []; queue = [] }) form_taxonomy)

-- The result, in the order of the sort.
abbrev pub forms_table : Bool → Bool → Bool → Bool → Bool → Bool → Bool → List String
forms_table wages business sales rent itemized interest dividends =
    "1040"
    ∷ on dividends "1099-div" (
        on interest "1099-int" (
          on sales "form-8949" (
            on itemized "schedule-a" (
              on (interest || dividends) "schedule-b" (
                on business "schedule-c" (
                  on sales "schedule-d" (
                    on rent "schedule-e"
                      (on business "schedule-se" ("state-return" ∷ on wages "w-2" [])))))))))

same_texts : List String → List String → Bool
same_texts [] [] = true
same_texts (x ∷ xs) (y ∷ ys) = (x === y) && same_texts xs ys
same_texts _ _ = false

same_texts_sound : (xs ys : List String) → same_texts xs ys ≡ true → xs ≡ ys
unfolding same_texts
same_texts_sound [] [] h = refl
same_texts_sound (x ∷ xs) (y ∷ ys) h =
    ground (arith, same_texts_sound xs ys, string_eq.test_iff x y)
same_texts_sound [] (y ∷ ys) h = cc
same_texts_sound (x ∷ xs) [] h = cc

abbrev both : (Bool → Bool) → Bool
both p = p true && p false

both_sound : (p : Bool → Bool) → both p ≡ true → (b : Bool) → p b ≡ true
both_sound p h true = ground arith
both_sound p h false = ground arith

abbrev table_row : Bool → Bool → Bool → Bool → Bool → Bool → Bool → Bool
table_row wages business sales rent itemized interest dividends =
    same_texts
      (forms_from (
        true
        ∷ wages
        ∷ business
        ∷ business
        ∷ sales
        ∷ sales
        ∷ rent
        ∷ itemized
        ∷ (interest || dividends)
        ∷ dividends
        ∷ interest
        ∷ true
        ∷ []))
      (forms_table wages business sales rent itemized interest dividends)

-- Every row, by evaluation.
table_rows :
    both (λ a.
      both
        (λ b. both (λ c. both (λ d. both (λ e. both (λ f. both (λ g. table_row a b c d e f g)))))))
    ≡ true
unfolding forms_from seed_from visit walk walk_fuel sort same_texts includes
table_rows = refl

table_row_lem :
    (wages business sales rent itemized interest dividends : Bool)
    → table_row wages business sales rent itemized interest dividends ≡ true
table_row_lem a b c d e f g =
    both_sound (λ g. table_row a b c d e f g)
      (both_sound (λ f. both (λ g. table_row a b c d e f g))
        (both_sound (λ e. both (λ f. both (λ g. table_row a b c d e f g)))
          (both_sound (λ d. both (λ e. both (λ f. both (λ g. table_row a b c d e f g))))
            (both_sound
              (λ c. both (λ d. both (λ e. both (λ f. both (λ g. table_row a b c d e f g)))))
              (both_sound
                (λ b.
                  both
                    (λ c. both (λ d. both (λ e. both (λ f. both (λ g. table_row a b c d e f g))))))
                (both_sound
                  (λ a. both (λ b.
                    both (λ c.
                      both (λ d. both (λ e. both (λ f. both (λ g. table_row a b c d e f g)))))))
                  table_rows a)
                b)
              c)
            d)
          e)
        f)
      g

required_forms-forms_from :
    (s : TaxSituation)
    → required_forms s ≡ forms_from (map (λ form. is_triggered form s) form_taxonomy)
unfolding required_forms forms_from
required_forms-forms_from s =
    ap finish (seed-seed_from s (record { required = []; queue = [] }) form_taxonomy)

bits_lem :
    (s : TaxSituation)
    → map (λ form. is_triggered form s) form_taxonomy
      ≡ true
        ∷ has_income_type s w2
        ∷ (has_income_type s form_1099_nec || has_income_type s form_1099_misc)
        ∷ (has_income_type s form_1099_nec || has_income_type s form_1099_misc)
        ∷ has_income_type s form_1099_b
        ∷ has_income_type s form_1099_b
        ∷ (has_income_type s rental || has_income_type s k1)
        ∷ (has_deduction_type s mortgage_interest
            || has_deduction_type s charitable
            || has_deduction_type s medical
            || has_deduction_type s state_local_taxes)
        ∷ (has_income_type s form_1099_int || has_income_type s form_1099_div)
        ∷ has_income_type s form_1099_div
        ∷ has_income_type s form_1099_int
        ∷ true
        ∷ []
bits_lem s = simp (
  form_1040-triggered, w_2-triggered, schedule_c-triggered, schedule_se-triggered,
  schedule_d-triggered, form_8949-triggered, schedule_e-triggered, schedule_a-triggered,
  schedule_b-triggered, div_form-triggered, int_form-triggered, state_return-triggered,
)

-- The forms required of any situation: Form 1040 and the state return always, every other form exactly
-- when its kind of income or deduction is there. The dependencies never add a form.
pub required_forms_table :
    (s : TaxSituation)
    → required_forms s
      ≡ forms_table
          (has_income_type s w2)
          (has_income_type s form_1099_nec || has_income_type s form_1099_misc)
          (has_income_type s form_1099_b)
          (has_income_type s rental || has_income_type s k1)
          (has_deduction_type s mortgage_interest
            || has_deduction_type s charitable
            || has_deduction_type s medical
            || has_deduction_type s state_local_taxes)
          (has_income_type s form_1099_int)
          (has_income_type s form_1099_div)
required_forms_table s =
    required_forms-forms_from s
    ∙ ap forms_from (bits_lem s)
    ∙ same_texts_sound _ _ (table_row_lem _ _ _ _ _ _ _)
