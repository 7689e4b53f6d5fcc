-- ===== src/Tests/Taxonomy.antt =====
-- The forms of the sample situations.
use tea_tax_product.Prelude.{◌≡◌, refl, ◌↔◌, String, some, true, false, List, [], ◌∷◌}
use tea_tax_product.Prelude.Enum.{In, Distinct, string_eq}
use tea_tax_product.Tests.Samples.{employee, freelancer}
use tea_tax_product.Taxonomy.Types.{FormDefinition}
use tea_tax_product.Taxonomy.Forms.{form_taxonomy, form_1040}
use tea_tax_product.Taxonomy.Traversal.{collect, get_required_forms, required_forms}
use tea_tax_product.Taxonomy.Traversal.Required.{Required}
use tea_tax_product.Taxonomy.Traversal.Closure.{collect_closure}
use tea_tax_product.Taxonomy.Traversal.Sorted.{IsSorted, get_required_forms_lem}
use tea_tax_product.Taxonomy.RequiredForms.{required_forms_table}

-- A form that depends on itself and on one that is not there.
abbrev cyclic : List FormDefinition
cyclic =
    record {
      form_id = "b";
      name = "B";
      required_fields = [];
      dependencies = "b" ∷ "a" ∷ [];
      triggered_by = form_1040.triggered_by;
    }
    ∷ []

cyclic_forms : get_required_forms employee cyclic ≡ "a" ∷ "b" ∷ []
unfolding get_required_forms tea_tax_product.Taxonomy.Trigger.is_triggered
    tea_tax_product.Taxonomy.Trigger.evaluate_rule tea_tax_product.Prelude.Enum.includes
cyclic_forms = refl

collect_closure_example :
    (ids : List String) × (collect freelancer form_taxonomy ≡ some ids)
    × Distinct ids
    × ((x : String) → In x ids ↔ Required freelancer form_taxonomy x)
collect_closure_example = collect_closure freelancer form_taxonomy

get_required_forms_lem_example :
    IsSorted (get_required_forms freelancer form_taxonomy)
    × Distinct (get_required_forms freelancer form_taxonomy)
    × ((x : String)
        → In x (get_required_forms freelancer form_taxonomy) ↔ Required freelancer form_taxonomy x)
get_required_forms_lem_example = get_required_forms_lem freelancer form_taxonomy

required_forms_table_example :
    required_forms freelancer
    ≡ "1040" ∷ "form-8949" ∷ "schedule-c" ∷ "schedule-d" ∷ "schedule-e" ∷ "schedule-se"
      ∷ "state-return" ∷ []
unfolding tea_tax_product.Rules.Helpers.has_income_type tea_tax_product.Prelude.any
    tea_tax_product.TaxSituation.Unions.IncomeStreamType-discrete
    tea_tax_product.Rules.Helpers.has_deduction_type
required_forms_table_example = required_forms_table freelancer
