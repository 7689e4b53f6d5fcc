-- ===== src/Rules/Helpers/Laws.antt =====
-- The thresholds that the rules look up, and the sums over income streams of one type.
use tea_tax_product.Prelude.{◌≡◌, refl, false, List, [], ◌∷◌, arith, any, filter}
use tea_tax_product.Prelude.Enum.{◌===◌, string_eq}
use tea_tax_product.Prelude.Number.{whole, sum_from}
use tea_tax_product.Thresholds.{thresholds_2025, thresholds_by_year}
use tea_tax_product.TaxSituation.{TaxSituation, IncomeStream}
use tea_tax_product.TaxSituation.Unions.{IncomeStreamType, income_stream_type_eq, filing_status_eq}
use tea_tax_product.Rules.Helpers.{thresholds_for, income_by_type, has_income_type}

-- Every year has the thresholds of 2025, the one year of the table.
pub thresholds_for_lem : (s : TaxSituation) → thresholds_for s ≡ thresholds_2025
unfolding thresholds_for thresholds_by_year
thresholds_for_lem s = ground arith

filter-none :
    (t : IncomeStreamType) (xs : List IncomeStream)
    → any (λ x. x.type === t) xs ≡ false
    → filter (λ x. x.type === t) xs ≡ []
unfolding any filter
filter-none t [] h = refl
filter-none t (x ∷ xs) h = ground (arith, filter-none t xs)

-- Without a stream of the type there is no income of it.
pub income_by_type-absent :
    (s : TaxSituation) (t : IncomeStreamType)
    → has_income_type s t ≡ false
    → income_by_type s t ≡ whole 0
unfolding income_by_type has_income_type sum_from
income_by_type-absent s t h = rw (filter-none t s.income_streams h) refl
