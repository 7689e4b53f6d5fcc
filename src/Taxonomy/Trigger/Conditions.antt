-- ===== src/Taxonomy/Trigger/Conditions.antt =====
-- What triggers each form, in terms of the typed situation.
use mathlib.Core.List.{append-nil}
use tea_tax_product.Prelude.{String, ◌≡◌, refl, ap, Bool, List, [], ◌∷◌, arith, any, any_ext}
use tea_tax_product.Prelude.Enum.{◌===◌, string_eq}
use tea_tax_product.Js.{Value, str, obj, items, to_items}
use tea_tax_product.TaxSituation.{TaxSituation, IncomeStream, Deduction}
use tea_tax_product.TaxSituation.Values.{
  tax_situation_fields, values, income_stream_value, deduction_value,
}
use tea_tax_product.TaxSituation.Tags.{income_stream_type_tag, deduction_type_tag}
use tea_tax_product.TaxSituation.Unions.{
  IncomeStreamType, DeductionType, w2, form_1099_nec, form_1099_misc, form_1099_b, form_1099_div,
  form_1099_int, form_1099_r, k1, rental, standard, mortgage_interest, state_local_taxes,
  charitable, medical, student_loan_interest, educator_expense, IncomeStreamType-discrete,
  DeductionType-discrete, income_stream_type_eq, deduction_type_eq,
}
use tea_tax_product.Taxonomy.Types.{contains}
use tea_tax_product.Taxonomy.Trigger.{resolve_field, resolve_plain, contains_value, evaluate_rule}
use tea_tax_product.Rules.Helpers.{has_income_type, has_deduction_type}

items-to_items : (vs : List Value) → items (to_items vs) ≡ vs
unfolding items to_items
items-to_items [] = refl
items-to_items (v ∷ vs) = ap (λ r. v ∷ r) (items-to_items vs)

-- The values that a path into an array of objects finds.
types-income_streams :
    (xs : List IncomeStream)
    → resolve_plain "type" (values income_stream_value xs)
      ≡ values (λ x. str (income_stream_type_tag x.type)) xs
unfolding resolve_plain values income_stream_value
types-income_streams [] = refl
types-income_streams (x ∷ xs) =
    ap (λ r. str (income_stream_type_tag x.type) ∷ r) (types-income_streams xs)

types-deductions :
    (xs : List Deduction)
    → resolve_plain "type" (values deduction_value xs)
      ≡ values (λ x. str (deduction_type_tag x.type)) xs
unfolding resolve_plain values deduction_value
types-deductions [] = refl
types-deductions (x ∷ xs) = ap (λ r. str (deduction_type_tag x.type) ∷ r) (types-deductions xs)

resolve-income_streams :
    (s : TaxSituation)
    → resolve_field (obj (tax_situation_fields s)) "incomeStreams[].type"
      ≡ values (λ x. str (income_stream_type_tag x.type)) s.income_streams
unfolding resolve_field tax_situation_fields tea_tax_product.TaxSituation.Values.array values
resolve-income_streams s = simp (append-nil, items-to_items) (types-income_streams s.income_streams)

resolve-deductions :
    (s : TaxSituation)
    → resolve_field (obj (tax_situation_fields s)) "deductions[].type"
      ≡ values (λ x. str (deduction_type_tag x.type)) s.deductions
unfolding resolve_field tax_situation_fields tea_tax_product.TaxSituation.Values.array values
resolve-deductions s = simp (append-nil, items-to_items) (types-deductions s.deductions)

-- No literal of a union is part of another, so `includes` on texts tests for the type itself.
income_tag-contains :
    (a t : IncomeStreamType)
    → contains_value (str (income_stream_type_tag a)) (str (income_stream_type_tag t)) ≡ (a === t)
unfolding contains_value income_stream_type_tag IncomeStreamType-discrete
income_tag-contains w2 w2 = refl
income_tag-contains w2 _ = refl
income_tag-contains form_1099_nec w2 = refl
income_tag-contains form_1099_nec _ = refl
income_tag-contains form_1099_misc w2 = refl
income_tag-contains form_1099_misc _ = refl
income_tag-contains form_1099_b w2 = refl
income_tag-contains form_1099_b _ = refl
income_tag-contains form_1099_div w2 = refl
income_tag-contains form_1099_div _ = refl
income_tag-contains form_1099_int w2 = refl
income_tag-contains form_1099_int _ = refl
income_tag-contains form_1099_r w2 = refl
income_tag-contains form_1099_r _ = refl
income_tag-contains k1 w2 = refl
income_tag-contains k1 _ = refl
income_tag-contains rental w2 = refl
income_tag-contains rental _ = refl
income_tag-contains IncomeStreamType.other w2 = refl
income_tag-contains IncomeStreamType.other _ = refl

deduction_tag-contains :
    (a t : DeductionType)
    → contains_value (str (deduction_type_tag a)) (str (deduction_type_tag t)) ≡ (a === t)
unfolding contains_value deduction_type_tag DeductionType-discrete
deduction_tag-contains standard standard = refl
deduction_tag-contains standard _ = refl
deduction_tag-contains mortgage_interest standard = refl
deduction_tag-contains mortgage_interest _ = refl
deduction_tag-contains state_local_taxes standard = refl
deduction_tag-contains state_local_taxes _ = refl
deduction_tag-contains charitable standard = refl
deduction_tag-contains charitable _ = refl
deduction_tag-contains medical standard = refl
deduction_tag-contains medical _ = refl
deduction_tag-contains student_loan_interest standard = refl
deduction_tag-contains student_loan_interest _ = refl
deduction_tag-contains educator_expense standard = refl
deduction_tag-contains educator_expense _ = refl
deduction_tag-contains DeductionType.other standard = refl
deduction_tag-contains DeductionType.other _ = refl

any-values {ℓ} :
    {A : Type ℓ} (p : Value → Bool) (f : A → Value) (xs : List A)
    → any p (values f xs) ≡ any (λ x. p (f x)) xs
unfolding any values
any-values p f [] = refl
any-values p f (x ∷ xs) = ground (arith, any-values p f xs)

module _ (s : TaxSituation) (description : String) where
  -- A rule on the types of the income streams fires where a stream has the type.
  pub income_rule :
      (t : IncomeStreamType)
      → evaluate_rule
          (record {
            field = "incomeStreams[].type";
            operator = contains;
            value = str (income_stream_type_tag t);
            description = description;
          })
          s
        ≡ has_income_type s t
  unfolding evaluate_rule has_income_type
  income_rule t =
      rw (resolve-income_streams s, any-values)
        (any_ext _ _ s.income_streams (λ x. income_tag-contains x.type t))

  pub deduction_rule :
      (t : DeductionType)
      → evaluate_rule
          (record {
            field = "deductions[].type";
            operator = contains;
            value = str (deduction_type_tag t);
            description = description;
          })
          s
        ≡ has_deduction_type s t
  unfolding evaluate_rule has_deduction_type
  deduction_rule t =
      rw (resolve-deductions s, any-values)
        (any_ext _ _ s.deductions (λ x. deduction_tag-contains x.type t))
