-- ===== src/Schema/Bodies.antt =====
-- packages/core/tax-situation-schema.ts: the schemas of a tax situation and of the bodies of requests.
use tea_tax_product.Prelude.{[], ◌∷◌}
use tea_tax_product.Schema.{
  JsonType, Schema, any_value, also, one_of, closed, partial, array_of, of_type, non_empty,
  one_word, fraction, year,
}
use tea_tax_product.Schema.Enums.{filing_status_enum, tax_object_type_enum}
use tea_tax_product.Schema.Parts.{
  confidence_scores_schema, credit_schema, deduction_schema, dependent_schema, income_stream_schema,
  life_event_schema, prior_year_context_schema, raw_artifact_schema, situation_metadata_schema,
  state_residency_schema,
}

unfoldable pub tax_situation_schema : Schema
tax_situation_schema =
    closed
      ("id" ∷ "version" ∷ "filingYear" ∷ "filingStatus" ∷ "dependents" ∷ "incomeStreams"
        ∷ "deductions" ∷ "credits" ∷ "lifeEvents" ∷ "priorYearContext" ∷ "stateResidency"
        ∷ "documentationCompleteness" ∷ "confidenceScores" ∷ "rawArtifacts" ∷ "metadata" ∷ [])
      (("id", non_empty)
        ∷ ("version", non_empty)
        ∷ ("filingYear", year)
        ∷ ("filingStatus", one_word filing_status_enum)
        ∷ ("dependents", array_of dependent_schema)
        ∷ ("incomeStreams", array_of income_stream_schema)
        ∷ ("deductions", array_of deduction_schema)
        ∷ ("credits", array_of credit_schema)
        ∷ ("lifeEvents", array_of life_event_schema)
        ∷ (
          "priorYearContext",
          also (one_of prior_year_context_schema (of_type JsonType.null)) any_value,
        )
        ∷ ("stateResidency", state_residency_schema)
        ∷ ("documentationCompleteness", fraction)
        ∷ ("confidenceScores", confidence_scores_schema)
        ∷ ("rawArtifacts", array_of raw_artifact_schema)
        ∷ ("metadata", situation_metadata_schema)
        ∷ [])

unfoldable pub create_tax_object_schema : Schema
create_tax_object_schema = closed ("objectType" ∷ "filingYear" ∷ []) (
    ("objectType", one_word tax_object_type_enum)
    ∷ ("filingYear", year)
    ∷ ("label", of_type JsonType.string)
    ∷ ("ownerId", non_empty)
    ∷ [])

unfoldable pub patch_tax_object_schema : Schema
patch_tax_object_schema = partial (
    ("objectType", one_word tax_object_type_enum)
    ∷ ("filingYear", year)
    ∷ ("label", of_type JsonType.string)
    ∷ [])

unfoldable pub create_tax_return_schema : Schema
create_tax_return_schema = closed ("taxObjectId" ∷ "filingYear" ∷ "filingStatus" ∷ []) (
    ("taxObjectId", non_empty)
    ∷ ("filingYear", year)
    ∷ ("filingStatus", one_word filing_status_enum)
    ∷ ("situationData", tax_situation_schema)
    ∷ [])

unfoldable pub patch_tax_return_schema : Schema
patch_tax_return_schema =
    partial
      (("filingStatus", one_word filing_status_enum) ∷ ("situationData", tax_situation_schema) ∷ [])
