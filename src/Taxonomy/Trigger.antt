-- ===== src/Taxonomy/Trigger.antt =====
-- The trigger rule evaluator of form-taxonomy.ts.
pub mod Conditions
pub mod Shipped
use Prim.Native.Char.{Char, code}
use Prim.Native.String
use text.Mathlib.Text.{find?}
use tea_tax_product.Prelude.{
  String, Bool, true, false, Option, none, some, List, [], ◌∷◌, ◌++◌, any, if◌then◌else◌, ◌==◌,
}
use tea_tax_product.Prelude.Enum.{◌===◌, string_eq}
use tea_tax_product.Prelude.Number.{gt as number_gt}
use tea_tax_product.Prelude.Int.{ltb_ℤ}
use tea_tax_product.Js.{
  Value, null, bool, num, str, arr, obj, items, strict_eq, property, get_field,
}
use tea_tax_product.TaxSituation.{TaxSituation}
use tea_tax_product.TaxSituation.Values.{tax_situation_fields}
use tea_tax_product.Taxonomy.Types.{
  Operator, equals, contains, exists, gt, lt, TriggerRule, FormDefinition,
}

unfoldable pub push_char : Char → List String → List String
push_char c [] = String.◌∷◌ c String.[] ∷ []
push_char c (w ∷ ws) = String.◌∷◌ c w ∷ ws

-- path.split('.')
unfoldable pub split_dots : String → List String
unfolding push_char
split_dots String.[] = String.[] ∷ []
split_dots (String.◌∷◌ c s) =
    let rest = split_dots s in if code c == b'.' then String.[] ∷ rest else push_char c rest

-- segment.slice(0, -2), if segment.endsWith('[]')
unfoldable pub array_key : String → Option String
array_key String.[] = none
array_key (String.◌∷◌ c s) =
    let rest = array_key s in
    if String.◌∷◌ c s === "[]"
    then some ""
    else elim rest [ none ↦ none | some key ↦ some (String.◌∷◌ c key) ]

-- The round of the inner loop for one node.
unfoldable pub resolve_plain : String → List Value → List Value
unfolding property
resolve_plain key [] = []
resolve_plain key (node ∷ nodes) =
    let rest = resolve_plain key nodes in
    elim (property node key) [ none ↦ rest | some val ↦ val ∷ rest ]

unfoldable pub expand : Option Value → List Value
unfolding items
expand none = []
expand (some (arr vs)) = items vs
expand (some null) = null ∷ []
expand (some (bool b)) = bool b ∷ []
expand (some (num n)) = num n ∷ []
expand (some (str s)) = str s ∷ []
expand (some (obj fs)) = obj fs ∷ []

unfoldable pub resolve_array : String → List Value → List Value
unfolding property expand
resolve_array key [] = []
resolve_array key (node ∷ nodes) = expand (property node key) ++ resolve_array key nodes

unfoldable pub resolve_segment : String → List Value → List Value
unfolding array_key resolve_array resolve_plain
resolve_segment segment current = elim (array_key segment) [
  | some key ↦ resolve_array key current
  | none ↦ resolve_plain segment current
]

unfoldable pub resolve_segments : List String → List Value → List Value
unfolding resolve_segment
resolve_segments [] current = current
resolve_segments (segment ∷ segments) current =
    resolve_segments segments (resolve_segment segment current)

unfoldable pub resolve_field : Value → String → List Value
unfolding resolve_segments split_dots
resolve_field object path = resolve_segments (split_dots path) (object ∷ [])

unfoldable pub is_present : Value → Bool
is_present null = false
is_present (bool b) = true
is_present _ = true

-- The test of the operator `contains` on one value: a list that includes it, a text in a text, or `===`.
unfoldable pub contains_value : Value → Value → Bool
unfolding strict_eq items any
contains_value (arr vs) value = any (λ v. strict_eq v value) (items vs)
contains_value (str s) (str t) = elim (find? s t) [ none ↦ false | some _ ↦ true ]
contains_value v value = strict_eq v value

-- `typeof v === 'number' && v > value`. The source casts `value` to a number; the rules with these
-- operators have one.
unfoldable pub exceeds : Value → Value → Bool
exceeds (num a) (num b) = number_gt a b
exceeds _ _ = false

unfoldable pub evaluate_operator : Operator → Value → List Value → Bool
unfolding any is_present contains_value exceeds strict_eq
evaluate_operator exists value values = any is_present values
evaluate_operator equals value values = any (λ v. strict_eq v value) values
evaluate_operator contains value values = any (λ v. contains_value v value) values
evaluate_operator gt value values = any (λ v. exceeds v value) values
evaluate_operator lt value values = any (λ v. exceeds value v) values

unfoldable pub evaluate_rule : TriggerRule → TaxSituation → Bool
unfolding evaluate_operator resolve_field tax_situation_fields
evaluate_rule rule s =
    evaluate_operator rule.operator rule.value
      (resolve_field (obj (tax_situation_fields s)) rule.field)

unfoldable pub is_triggered : FormDefinition → TaxSituation → Bool
unfolding any
is_triggered form s = any (λ rule. evaluate_rule rule s) form.triggered_by
