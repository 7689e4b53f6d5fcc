-- ===== src/TaxSituation/Values.antt =====
-- The tax situation as the value that the running program holds: what a lookup by a computed key sees.
-- Properties stand in the order of the interfaces; an optional one that is absent is left out.
use tea_tax_product.Prelude.{String, Option, none, some, List, [], ◌∷◌}
use tea_tax_product.Prelude.Number.{Number}
use tea_tax_product.Js.{Value, null, bool, num, str, arr, obj, Fields, end, field, to_items}
use tea_tax_product.TaxSituation.{
  DocumentRef, W2Data, Form1099Data, IncomeStream, Dependent, Deduction, Credit, LifeEvent,
  StateResidency, PriorYearContext, RawArtifact, SituationMetadata, ConfidenceScores, TaxSituation,
}
use tea_tax_product.TaxSituation.Tags.{
  income_stream_type_tag, deduction_type_tag, credit_type_tag, life_event_type_tag, state_code_tag,
  filing_method_tag, artifact_type_tag, tax_object_type_tag, filing_status_tag,
}

module _ {ℓ} {A : Type ℓ} where
  -- A list of values, one for each element.
  unfoldable pub values : (A → Value) → List A → List Value
  values f [] = []
  values f (x ∷ xs) = f x ∷ values f xs

  unfoldable pub array : (A → Value) → List A → Value
  unfolding values to_items
  array f xs = arr (to_items (values f xs))

  unfoldable pub or_null : (A → Value) → Option A → Value
  or_null f none = null
  or_null f (some x) = f x

  unfoldable pub optional : String → (A → Value) → Option A → Fields → Fields
  optional name f none rest = rest
  optional name f (some x) rest = field name (f x) rest

unfoldable pub score_fields : List (String × Number) → Fields
score_fields [] = end
score_fields ((path, score) ∷ rest) = field path (num score) (score_fields rest)

unfoldable pub document_ref_value : DocumentRef → Value
document_ref_value x =
    obj (field "artifactId" (str x.artifact_id) (optional "description" str x.description end))

unfoldable pub w2_data_value : W2Data → Value
w2_data_value x = obj (
    field "wages" (num x.wages) (
      field "federalTaxWithheld" (num x.federal_tax_withheld) (
        field "socialSecurityWages" (num x.social_security_wages) (
          field "socialSecurityTaxWithheld" (num x.social_security_tax_withheld) (
            field "medicareWages" (num x.medicare_wages) (
              field "medicareTaxWithheld" (num x.medicare_tax_withheld) (
                optional "stateName" str x.state_name (
                  optional "stateWages" num x.state_wages
                    (optional "stateTaxWithheld" num x.state_tax_withheld end)))))))))

unfoldable pub form1099_data_value : Form1099Data → Value
form1099_data_value x = obj (
    field "payerName" (str x.payer_name) (
      optional "payerTIN" str x.payer_tin (
        optional "nonEmployeeCompensation" num x.non_employee_compensation (
          optional "otherIncome" num x.other_income (
            optional "proceeds" num x.proceeds (
              optional "costBasis" num x.cost_basis (
                optional "ordinaryDividends" num x.ordinary_dividends (
                  optional "qualifiedDividends" num x.qualified_dividends (
                    optional "interestIncome" num x.interest_income (
                      optional "taxablePensionDistributions" num x.taxable_pension_distributions
                        (optional "federalTaxWithheld" num x.federal_tax_withheld end)))))))))))

unfoldable pub income_stream_value : IncomeStream → Value
income_stream_value x = obj (
    field "type" (str (income_stream_type_tag x.type)) (
      field "source" (str x.source) (
        field "amount" (num x.amount) (
          optional "employerEIN" str x.employer_ein (
            field "documentation" (array document_ref_value x.documentation) (
              optional "w2Data" w2_data_value x.w2_data
                (optional "form1099Data" form1099_data_value x.form1099_data end)))))))

unfoldable pub dependent_value : Dependent → Value
dependent_value x = obj (
    field "firstName" (str x.first_name) (
      field "lastName" (str x.last_name) (
        field "relationship" (str x.relationship) (
          field "dateOfBirth" (str x.date_of_birth) (
            optional "ssn_last4" str x.ssn_last4 (
              field "qualifiesForChildTaxCredit" (bool x.qualifies_for_child_tax_credit)
                (field "qualifiesForEIC" (bool x.qualifies_for_eic) end)))))))

unfoldable pub deduction_value : Deduction → Value
deduction_value x = obj (
    field "type" (str (deduction_type_tag x.type)) (
      field "amount" (num x.amount)
        (field "documentation" (array document_ref_value x.documentation) end)))

unfoldable pub credit_value : Credit → Value
credit_value x = obj (
    field "type" (str (credit_type_tag x.type)) (
      field "amount" (num x.amount)
        (field "documentation" (array document_ref_value x.documentation) end)))

unfoldable pub life_event_value : LifeEvent → Value
life_event_value x = obj (
    field "type" (str (life_event_type_tag x.type))
      (field "date" (str x.date) (optional "details" str x.details end)))

unfoldable pub state_residency_value : StateResidency → Value
state_residency_value x = obj (
    field "primary" (str (state_code_tag x.primary))
      (field "additional" (array (λ c. str (state_code_tag c)) x.additional) end))

unfoldable pub prior_year_context_value : PriorYearContext → Value
prior_year_context_value x = obj (
    field "estimatedAGI" (or_null num x.estimated_agi) (
      field "filingMethod" (str (filing_method_tag x.filing_method))
        (field "provider" (or_null str x.provider) end)))

unfoldable pub raw_artifact_value : RawArtifact → Value
raw_artifact_value x = obj (
    field "id" (str x.id) (
      field "type" (str (artifact_type_tag x.type))
        (field "source" (str x.source) (optional "extractedData" (λ v. v) x.extracted_data end))))

unfoldable pub situation_metadata_value : SituationMetadata → Value
situation_metadata_value x = obj (
    field "createdAt" (str x.created_at) (
      field "updatedAt" (str x.updated_at) (
        field "objectType" (str (tax_object_type_tag x.object_type))
          (field "schemaVersion" (str x.schema_version) end))))

unfoldable pub confidence_scores_value : ConfidenceScores → Value
confidence_scores_value x =
    obj (field "overall" (num x.overall) (field "perField" (obj (score_fields x.per_field)) end))

unfoldable pub tax_situation_fields : TaxSituation → Fields
tax_situation_fields x = field "id" (str x.id) (
    field "version" (str x.version) (
      field "filingYear" (num x.filing_year) (
        field "filingStatus" (str (filing_status_tag x.filing_status)) (
          field "dependents" (array dependent_value x.dependents) (
            field "incomeStreams" (array income_stream_value x.income_streams) (
              field "deductions" (array deduction_value x.deductions) (
                field "credits" (array credit_value x.credits) (
                  field "lifeEvents" (array life_event_value x.life_events) (
                    field "priorYearContext" (or_null prior_year_context_value x.prior_year_context)
                      (field "stateResidency" (state_residency_value x.state_residency) (
                        field "documentationCompleteness" (num x.documentation_completeness) (
                          field "confidenceScores" (confidence_scores_value x.confidence_scores) (
                            field "rawArtifacts" (array raw_artifact_value x.raw_artifacts) (
                              field "metadata" (situation_metadata_value x.metadata)
                                end))))))))))))))
