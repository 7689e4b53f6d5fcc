-- ===== src/Taxonomy/Traversal.antt =====
-- The traversal of the form dependencies, `getRequiredForms` of form-taxonomy.ts. `required`, a Set, is
-- the list of its elements in order of insertion; `formIndex`, a Map, keeps the last form of an id.
pub mod Visits
pub mod Fuel
pub mod Required
pub mod Rounds
pub mod Seeds
pub mod Closure
pub mod Sorted
use Prim.Native.Nat.{Ordering}
use Prim.Native.String.{compare}
use tea_tax_product.Prelude.{
  ℕ, zero, suc, ◌+◌, String, Bool, true, false, Option, none, some, List, [], ◌∷◌, ◌++◌, length,
  if◌then◌else◌,
}
use tea_tax_product.Prelude.Enum.{◌===◌, includes, string_eq}
use tea_tax_product.TaxSituation.{TaxSituation}
use tea_tax_product.Taxonomy.Types.{FormDefinition}
use tea_tax_product.Taxonomy.Forms.{form_taxonomy}
use tea_tax_product.Taxonomy.Trigger.{is_triggered}

-- buildFormIndex(taxonomy).get(id)
unfoldable pub find_form : List FormDefinition → String → Option FormDefinition
find_form [] id = none
find_form (form ∷ forms) id =
    let later = find_form forms id in
    elim later [ some f ↦ some f | none ↦ if form.form_id === id then some form else none ]

-- The two collections of the traversal.
pub record Search : Type 0 where
  pub required : List String
  pub queue : List String

-- if (!required.has(id)) { required.add(id); queue.push(id); }
unfoldable pub visit : Search → String → Search
visit w id =
    if includes w.required id
    then w
    else record { required = w.required ++ id ∷ []; queue = w.queue ++ id ∷ [] }

-- Seed: collect directly triggered forms.
unfoldable pub seed : TaxSituation → Search → List FormDefinition → Search
unfolding visit
seed s w [] = w
seed s w (form ∷ forms) = seed s (if is_triggered form s then visit w form.form_id else w) forms

-- for (const depId of form.dependencies)
unfoldable pub visit_all : Search → List String → Search
unfolding visit
visit_all w [] = w
visit_all w (id ∷ ids) = visit_all (visit w id) ids

-- The body of the loop after `formId` was shifted from the queue.
unfoldable pub expand_form : List FormDefinition → Search → String → Search
unfolding visit_all find_form
expand_form taxonomy w id = elim (find_form taxonomy id) [
  | none ↦ w
  | some form ↦ visit_all w form.dependencies
]

-- while (queue.length > 0), with fuel; `none` means that the fuel ran out.
unfoldable pub walk : List FormDefinition → ℕ → List String → List String → Option (List String)
unfolding expand_form
walk taxonomy zero required queue = none
walk taxonomy (suc fuel) required queue = elim queue [
  | [] ↦ some required
  | id ∷ rest ↦
      let w = expand_form taxonomy (record { required = required; queue = rest }) id in
      walk taxonomy fuel w.required w.queue
]

-- Array.prototype.sort: by code units, for the ASCII ids of forms that is by bytes
unfoldable pub before : String → String → Bool
before a b = elim (compare a b) [ Ordering.gt ↦ false | _ ↦ true ]

unfoldable pub insert_sorted : String → List String → List String
unfolding before
insert_sorted x [] = x ∷ []
insert_sorted x (y ∷ ys) =
    let later = insert_sorted x ys in if before x y then x ∷ y ∷ ys else y ∷ later

unfoldable pub sort : List String → List String
unfolding insert_sorted
sort [] = []
sort (x ∷ xs) = insert_sorted x (sort xs)

-- Every id that the loop can push is a dependency of a form.
unfoldable pub all_dependencies : List FormDefinition → List String
all_dependencies [] = []
all_dependencies (form ∷ forms) = form.dependencies ++ all_dependencies forms

unfoldable pub walk_fuel : List FormDefinition → Search → ℕ
unfolding all_dependencies
walk_fuel taxonomy w = suc (length w.queue + length (all_dependencies taxonomy))

unfoldable pub collect : TaxSituation → List FormDefinition → Option (List String)
unfolding seed walk walk_fuel
collect s taxonomy =
    let w = seed s (record { required = []; queue = [] }) taxonomy in
    walk taxonomy (walk_fuel taxonomy w) w.required w.queue

unfoldable pub get_required_forms : TaxSituation → List FormDefinition → List String
unfolding collect sort
get_required_forms s taxonomy = elim (collect s taxonomy) [ some ids ↦ sort ids | none ↦ [] ]

-- The call with the default taxonomy.
unfoldable pub required_forms : TaxSituation → List String
unfolding get_required_forms
required_forms s = get_required_forms s form_taxonomy
