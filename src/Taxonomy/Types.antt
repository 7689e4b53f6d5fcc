-- ===== src/Taxonomy/Types.antt =====
-- The declarations of form-taxonomy.ts.
use tea_tax_product.Prelude.{String, List}
use tea_tax_product.Js.{Value}

pub data Operator : Type 0 where
  equals contains exists gt lt : Operator

pub record TriggerRule : Type 0 where
  pub field : String
  pub operator : Operator
  pub value : Value
  pub description : String

pub record FormDefinition : Type 0 where
  pub form_id : String
  pub name : String
  pub required_fields : List String
  pub dependencies : List String
  pub triggered_by : List TriggerRule
