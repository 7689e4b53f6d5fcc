-- ===== src/Tier/Conditions/Laws.antt =====
-- How the income conditions of tier-mapping.ts exclude one another.
use tea_tax_product.Prelude.{
  ◌≡◌, refl, Bool, true, false, ◌||◌, List, [], ◌∷◌, arith, any, all, all-not-any, any_ext, any-or,
}
use tea_tax_product.Prelude.Enum.{◌===◌, includes}
use tea_tax_product.TaxSituation.{TaxSituation}
use tea_tax_product.TaxSituation.Unions.{
  IncomeStreamType, w2, form_1099_nec, form_1099_misc, form_1099_b, form_1099_div, form_1099_int,
  k1, rental, IncomeStreamType-discrete, income_stream_type_eq,
}
use tea_tax_product.Tier.Conditions.{
  has_only_w2_income, has_complex_income, has_self_employment_income, has_investment_income,
  has_rental_income, has_k1_income, has_income_type, has_any_income_type,
}

-- A W-2 stream has no other type.
w2-not-other :
    (ts : List IncomeStreamType) (x : IncomeStreamType)
    → includes ts w2 ≡ false
    → (x === w2) ≡ true
    → includes ts x ≡ false
w2-not-other ts x h e = let p : x ≡ w2 = (income_stream_type_eq.test_iff x w2).0 e in rw p h

all_w2 :
    (s : TaxSituation)
    → has_only_w2_income s ≡ true
    → all (λ x. x.type === w2) s.income_streams ≡ true
unfolding has_only_w2_income
all_w2 s h = ground arith

-- A situation with W-2 income alone has no type of a list that W-2 is not in.
only_w2-not-any :
    (s : TaxSituation) (ts : List IncomeStreamType)
    → includes ts w2 ≡ false
    → has_only_w2_income s ≡ true
    → has_any_income_type s ts ≡ false
unfolding has_any_income_type
only_w2-not-any s ts h e =
    all-not-any _ _ s.income_streams (λ x. w2-not-other ts x.type h) (all_w2 s e)

only_w2-not-type :
    (s : TaxSituation) (t : IncomeStreamType)
    → (w2 === t) ≡ false
    → has_only_w2_income s ≡ true
    → has_income_type s t ≡ false
unfolding has_income_type
only_w2-not-type s t h e =
    all-not-any _ _ s.income_streams
      (λ x q. let p : x.type ≡ w2 = (income_stream_type_eq.test_iff x.type w2).0 q in rw p h)
      (all_w2 s e)

-- W-2 income alone is not complex income.
pub only_w2-not-complex :
    (s : TaxSituation) → has_only_w2_income s ≡ true → has_complex_income s ≡ false
unfolding has_complex_income has_self_employment_income has_investment_income has_rental_income
    has_k1_income includes IncomeStreamType-discrete
only_w2-not-complex s e = ground (
  arith,
  only_w2-not-any s (form_1099_nec ∷ form_1099_misc ∷ []) refl e,
  only_w2-not-any s (form_1099_b ∷ form_1099_div ∷ form_1099_int ∷ []) refl e,
  only_w2-not-type s rental refl e,
  only_w2-not-type s k1 refl e,
)

-- The types of income that no free tier but FreeTaxUSA's takes.
abbrev pub is_complex_type : IncomeStreamType → Bool
is_complex_type form_1099_nec = true
is_complex_type form_1099_misc = true
is_complex_type form_1099_b = true
is_complex_type form_1099_div = true
is_complex_type form_1099_int = true
is_complex_type rental = true
is_complex_type k1 = true
is_complex_type _ = false

complex_type_lem :
    (t : IncomeStreamType)
    → is_complex_type t ≡ (
        includes (form_1099_nec ∷ form_1099_misc ∷ []) t
        || includes (form_1099_b ∷ form_1099_div ∷ form_1099_int ∷ []) t
        || (t === rental)
        || (t === k1))
unfolding includes IncomeStreamType-discrete
complex_type_lem w2 = refl
complex_type_lem _ = refl

-- Complex income is an income stream of type 1099-NEC, 1099-MISC, 1099-B, 1099-DIV, 1099-INT, rental or K-1.
pub has_complex_income-any :
    (s : TaxSituation) → has_complex_income s ≡ any (λ x. is_complex_type x.type) s.income_streams
unfolding has_complex_income has_self_employment_income has_investment_income has_rental_income
    has_k1_income has_income_type has_any_income_type
has_complex_income-any s =
    simp (any_ext _ _ s.income_streams (λ x. complex_type_lem x.type), any-or)
