-- ===== src/Schema/Parts.antt =====
-- The shared parts of the schemas of packages/core/tax-situation-schema.ts.
use tea_tax_product.Prelude.{[], ◌∷◌}
use tea_tax_product.Schema.{
  JsonType, Schema, any_value, also, type, min_length, max_length, four_digits, properties,
  each_other, closed, array_of, of_type, non_empty, one_word, fraction,
}
use tea_tax_product.Schema.Enums.{
  artifact_type_enum, credit_type_enum, deduction_type_enum, income_stream_type_enum,
  life_event_type_enum, prior_year_filing_method_enum, state_code_enum, tax_object_type_enum,
}

unfoldable pub document_ref_schema : Schema
document_ref_schema =
    closed ("artifactId" ∷ [])
      (("artifactId", non_empty) ∷ ("description", of_type JsonType.string) ∷ [])

unfoldable pub w2_data_schema : Schema
w2_data_schema =
    closed
      ("wages" ∷ "federalTaxWithheld" ∷ "socialSecurityWages" ∷ "socialSecurityTaxWithheld"
        ∷ "medicareWages" ∷ "medicareTaxWithheld" ∷ [])
      (("wages", of_type JsonType.number)
        ∷ ("federalTaxWithheld", of_type JsonType.number)
        ∷ ("socialSecurityWages", of_type JsonType.number)
        ∷ ("socialSecurityTaxWithheld", of_type JsonType.number)
        ∷ ("medicareWages", of_type JsonType.number)
        ∷ ("medicareTaxWithheld", of_type JsonType.number)
        ∷ ("stateName", of_type JsonType.string)
        ∷ ("stateWages", of_type JsonType.number)
        ∷ ("stateTaxWithheld", of_type JsonType.number)
        ∷ [])

unfoldable pub form1099_data_schema : Schema
form1099_data_schema = closed ("payerName" ∷ []) (
    ("payerName", non_empty)
    ∷ ("payerTIN", of_type JsonType.string)
    ∷ ("nonEmployeeCompensation", of_type JsonType.number)
    ∷ ("otherIncome", of_type JsonType.number)
    ∷ ("proceeds", of_type JsonType.number)
    ∷ ("costBasis", of_type JsonType.number)
    ∷ ("ordinaryDividends", of_type JsonType.number)
    ∷ ("qualifiedDividends", of_type JsonType.number)
    ∷ ("interestIncome", of_type JsonType.number)
    ∷ ("taxablePensionDistributions", of_type JsonType.number)
    ∷ ("federalTaxWithheld", of_type JsonType.number)
    ∷ [])

unfoldable pub income_stream_schema : Schema
income_stream_schema = closed ("type" ∷ "source" ∷ "amount" ∷ "documentation" ∷ []) (
    ("type", one_word income_stream_type_enum)
    ∷ ("source", non_empty)
    ∷ ("amount", of_type JsonType.number)
    ∷ ("employerEIN", of_type JsonType.string)
    ∷ ("documentation", array_of document_ref_schema)
    ∷ ("w2Data", w2_data_schema)
    ∷ ("form1099Data", form1099_data_schema)
    ∷ [])

unfoldable pub dependent_schema : Schema
dependent_schema =
    closed
      ("firstName" ∷ "lastName" ∷ "relationship" ∷ "dateOfBirth" ∷ "qualifiesForChildTaxCredit"
        ∷ "qualifiesForEIC" ∷ [])
      (("firstName", non_empty)
        ∷ ("lastName", non_empty)
        ∷ ("relationship", non_empty)
        ∷ ("dateOfBirth", non_empty)
        ∷ (
          "ssn_last4",
          also (type (JsonType.string ∷ []))
              (also (min_length 4) (also (max_length 4) (also four_digits any_value))),
        )
        ∷ ("qualifiesForChildTaxCredit", of_type JsonType.boolean)
        ∷ ("qualifiesForEIC", of_type JsonType.boolean)
        ∷ [])

unfoldable pub deduction_schema : Schema
deduction_schema = closed ("type" ∷ "amount" ∷ "documentation" ∷ []) (
    ("type", one_word deduction_type_enum)
    ∷ ("amount", of_type JsonType.number)
    ∷ ("documentation", array_of document_ref_schema)
    ∷ [])

unfoldable pub credit_schema : Schema
credit_schema = closed ("type" ∷ "amount" ∷ "documentation" ∷ []) (
    ("type", one_word credit_type_enum)
    ∷ ("amount", of_type JsonType.number)
    ∷ ("documentation", array_of document_ref_schema)
    ∷ [])

unfoldable pub life_event_schema : Schema
life_event_schema = closed ("type" ∷ "date" ∷ []) (
    ("type", one_word life_event_type_enum)
    ∷ ("date", non_empty)
    ∷ ("details", of_type JsonType.string)
    ∷ [])

unfoldable pub state_residency_schema : Schema
state_residency_schema = closed ("primary" ∷ "additional" ∷ []) (
    ("primary", one_word state_code_enum)
    ∷ ("additional", array_of (one_word state_code_enum))
    ∷ [])

unfoldable pub prior_year_context_schema : Schema
prior_year_context_schema = closed ("estimatedAGI" ∷ "filingMethod" ∷ "provider" ∷ []) (
    ("estimatedAGI", also (type (JsonType.number ∷ JsonType.null ∷ [])) any_value)
    ∷ ("filingMethod", one_word prior_year_filing_method_enum)
    ∷ ("provider", also (type (JsonType.string ∷ JsonType.null ∷ [])) any_value)
    ∷ [])

unfoldable pub raw_artifact_schema : Schema
raw_artifact_schema = closed ("id" ∷ "type" ∷ "source" ∷ []) (
    ("id", non_empty)
    ∷ ("type", one_word artifact_type_enum)
    ∷ ("source", non_empty)
    ∷ ("extractedData", of_type JsonType.object)
    ∷ [])

unfoldable pub situation_metadata_schema : Schema
situation_metadata_schema =
    closed ("createdAt" ∷ "updatedAt" ∷ "objectType" ∷ "schemaVersion" ∷ []) (
      ("createdAt", non_empty)
      ∷ ("updatedAt", non_empty)
      ∷ ("objectType", one_word tax_object_type_enum)
      ∷ ("schemaVersion", non_empty)
      ∷ [])

unfoldable pub confidence_scores_schema : Schema
confidence_scores_schema = closed ("overall" ∷ "perField" ∷ []) (
    ("overall", fraction)
    ∷ (
      "perField",
      also (type (JsonType.object ∷ [])) (also (properties (each_other fraction)) any_value),
    )
    ∷ [])
