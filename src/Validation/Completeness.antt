-- ===== src/Validation/Completeness.antt =====
-- The completeness score of validation-engine.ts, in ten-thousandths.
pub mod Bounds
use tea_tax_product.Prelude.{
  ℕ, suc, ◌+◌, ◌*◌, ◌/◌, String, Bool, true, false, Option, none, some, List, [], ◌∷◌, length,
  if◌then◌else◌, leb,
}
use tea_tax_product.Prelude.Int.{ℤ, pos, negsuc, ◌+ℤ◌}
use tea_tax_product.Prelude.Number.{Number, whole}
use tea_tax_product.Js.{Value, null, bool, num, str, arr, obj, items, get_field}
use tea_tax_product.TaxSituation.{TaxSituation}
use tea_tax_product.TaxSituation.Values.{tax_situation_fields}

abbrev pub required_top_level_fields : List String
required_top_level_fields =
    "filingStatus" ∷ "filingYear" ∷ "incomeStreams" ∷ "stateResidency" ∷ "priorYearContext"
    ∷ "confidenceScores" ∷ "metadata" ∷ []

abbrev pub is_nonempty {ℓ} : {A : Type ℓ} → List A → Bool
is_nonempty [] = false
is_nonempty (x ∷ xs) = true

abbrev pub is_nonempty_text : String → Bool
is_nonempty_text String.[] = false
is_nonempty_text (String.◌∷◌ c s) = true

-- Whether a field counts: neither null nor undefined, and not an empty array or text.
unfoldable pub is_populated : Option Value → Bool
unfolding items
is_populated none = false
is_populated (some null) = false
is_populated (some (arr vs)) = is_nonempty (items vs)
is_populated (some (str s)) = is_nonempty_text s
is_populated (some (bool b)) = true
is_populated (some (num n)) = true
is_populated (some (obj fs)) = true

unfoldable pub count_populated : TaxSituation → List String → ℕ
unfolding get_field tax_situation_fields is_populated
count_populated s [] = 0
count_populated s (name ∷ names) =
    let rest = count_populated s names in
    if is_populated (get_field (tax_situation_fields s) name) then suc rest else rest

-- Math.round(Math.min(1, Math.max(0, sum / 8)) * 10000), for a sum in the units of a Number. A negative
-- sum is cut at 0 and one above 8 at 1; the exact half is rounded up.
unfoldable pub round_score : Number → ℕ
round_score (negsuc n) = 0
round_score (pos n) = if leb (8 * 65536) n then 10000 else (n * 10000 + 4 * 65536) / (8 * 65536)

unfoldable pub compute_completeness : TaxSituation → ℕ
unfolding count_populated round_score
compute_completeness s =
    let populated = count_populated s required_top_level_fields in
    round_score (whole populated +ℤ s.documentation_completeness)
