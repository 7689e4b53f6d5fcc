-- ===== src/TaxSituation.antt =====
-- packages/core/tax-situation.ts: the tax situation object, its parts, and the results of validating
-- and evaluating it. An optional field `f?: T` and a `T | null` are both `Option T`.
pub mod Unions
pub mod Tags
pub mod Values
use tea_tax_product.Prelude.{String, Bool, Option, List, ℕ}
use tea_tax_product.Prelude.Number.{Number}
use tea_tax_product.Js.{Value}
use Unions.{
  FilingStatus, IncomeStreamType, DeductionType, CreditType, LifeEventType, TaxObjectType,
  StateCode, ArtifactType, FilingMethod, ValidationSeverity,
}

pub record DocumentRef : Type 0 where
  pub artifact_id : String
  pub description : Option String

pub record W2Data : Type 0 where
  pub wages : Number
  pub federal_tax_withheld : Number
  pub social_security_wages : Number
  pub social_security_tax_withheld : Number
  pub medicare_wages : Number
  pub medicare_tax_withheld : Number
  pub state_name : Option String
  pub state_wages : Option Number
  pub state_tax_withheld : Option Number

pub record Form1099Data : Type 0 where
  pub payer_name : String
  pub payer_tin : Option String
  pub non_employee_compensation : Option Number
  pub other_income : Option Number
  pub proceeds : Option Number
  pub cost_basis : Option Number
  pub ordinary_dividends : Option Number
  pub qualified_dividends : Option Number
  pub interest_income : Option Number
  pub taxable_pension_distributions : Option Number
  pub federal_tax_withheld : Option Number

pub record IncomeStream : Type 0 where
  pub type : IncomeStreamType
  pub source : String
  pub amount : Number
  pub employer_ein : Option String
  pub documentation : List DocumentRef
  pub w2_data : Option W2Data
  pub form1099_data : Option Form1099Data

pub record Dependent : Type 0 where
  pub first_name : String
  pub last_name : String
  pub relationship : String
  pub date_of_birth : String
  pub ssn_last4 : Option String
  pub qualifies_for_child_tax_credit : Bool
  pub qualifies_for_eic : Bool

pub record Deduction : Type 0 where
  pub type : DeductionType
  pub amount : Number
  pub documentation : List DocumentRef

pub record Credit : Type 0 where
  pub type : CreditType
  pub amount : Number
  pub documentation : List DocumentRef

pub record LifeEvent : Type 0 where
  pub type : LifeEventType
  pub date : String
  pub details : Option String

pub record StateResidency : Type 0 where
  pub primary : StateCode
  pub additional : List StateCode

pub record PriorYearContext : Type 0 where
  pub estimated_agi : Option Number
  pub filing_method : FilingMethod
  pub provider : Option String

pub record RawArtifact : Type 0 where
  pub id : String
  pub type : ArtifactType
  pub source : String
  pub extracted_data : Option Value

pub record SituationMetadata : Type 0 where
  pub created_at : String
  pub updated_at : String
  pub object_type : TaxObjectType
  pub schema_version : String

-- `per_field` in the order of `Object.entries`
pub record ConfidenceScores : Type 0 where
  pub overall : Number
  pub per_field : List (String × Number)

pub record ValidationIssue : Type 0 where
  pub code : String
  pub severity : ValidationSeverity
  pub field : String
  pub message : String
  pub suggested_action : Option String

-- `completeness` is counted in ten-thousandths, to which the engine rounds it
pub record ValidationResult : Type 0 where
  pub valid : Bool
  pub errors : List ValidationIssue
  pub warnings : List ValidationIssue
  pub completeness : ℕ
  pub forms_required : List String

-- Prices are in cents.
pub record ProviderEvaluation : Type 0 where
  pub provider_id : String
  pub provider_name : String
  pub matched_tier : Option String
  pub federal_price : Option ℕ
  pub state_price : Option ℕ
  pub matched_conditions : List String
  pub disqualified_by : List String

pub record TierEvaluationResult : Type 0 where
  pub evaluations : List ProviderEvaluation

pub record TaxSituation : Type 0 where
  pub id : String
  pub version : String
  pub filing_year : Number
  pub filing_status : FilingStatus
  pub dependents : List Dependent
  pub income_streams : List IncomeStream
  pub deductions : List Deduction
  pub credits : List Credit
  pub life_events : List LifeEvent
  pub prior_year_context : Option PriorYearContext
  pub state_residency : StateResidency
  pub documentation_completeness : Number
  pub confidence_scores : ConfidenceScores
  pub raw_artifacts : List RawArtifact
  pub metadata : SituationMetadata
