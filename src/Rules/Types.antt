-- ===== src/Rules/Types.antt =====
-- The declarations of validation-rules.ts.
use tea_tax_product.Prelude.{String, Bool}
use tea_tax_product.TaxSituation.{TaxSituation}
use tea_tax_product.TaxSituation.Unions.{ValidationSeverity}

pub data ValidationCategory : Type 0 where
  missing contradiction implausible incomplete_chain threshold : ValidationCategory

-- `check` returns true when the rule is violated.
pub record ValidationRuleDefinition : Type 0 where
  pub id : String
  pub severity : ValidationSeverity
  pub category : ValidationCategory
  pub check : TaxSituation → Bool
  pub message : String
  pub suggested_action : String
