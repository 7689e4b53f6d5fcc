-- ===== src/Schema/AcceptedParts.antt =====
-- What the remaining parts of a tax situation must satisfy beyond their types for their schemas to accept them.
use tea_tax_product.Prelude.{
  refl, String, Bool, true, false, ◌&&◌, Option, none, some, List, [], ◌∷◌, all, any, arith,
}
use tea_tax_product.Prelude.Number.{Number, ge, whole}
use tea_tax_product.Js.{Value, obj, str, num, get_field}
use tea_tax_product.TaxSituation.{
  StateResidency, PriorYearContext, RawArtifact, SituationMetadata, ConfidenceScores,
}
use tea_tax_product.TaxSituation.Values.{
  state_residency_value, prior_year_context_value, raw_artifact_value, situation_metadata_value,
  confidence_scores_value, or_null, score_fields,
}
use tea_tax_product.Schema.{
  conforms, listed, has_field, of_type, non_empty, one_word, is_type, JsonType, also, type,
  properties, any_value, each_other, fraction,
}
use tea_tax_product.Schema.Parts.{
  state_residency_schema, prior_year_context_schema, raw_artifact_schema, situation_metadata_schema,
  confidence_scores_schema,
}
use tea_tax_product.Schema.Reading.{
  Reads, if_given, Fits-field, Fits-optional, Fits-end, Fits, Fits-same, all_of_true, Reads-closed,
  Reads-same, Reads-array, allows-Reads, Reads-word,
}
use tea_tax_product.Schema.Words.{
  state_code-In, filing_method-In, artifact_type-In, tax_object_type-In,
}
use tea_tax_product.Schema.Accepted.{has_text}

Reads-number_or_null :
    (o : Option Number)
    → Reads (also (type (JsonType.number ∷ JsonType.null ∷ [])) any_value) (or_null num o) true
unfolding or_null conforms is_type any
Reads-number_or_null none = record { verdict = refl }
Reads-number_or_null (some x) = record { verdict = refl }

Reads-string_or_null :
    (o : Option String)
    → Reads (also (type (JsonType.string ∷ JsonType.null ∷ [])) any_value) (or_null str o) true
unfolding or_null conforms is_type any
Reads-string_or_null none = record { verdict = refl }
Reads-string_or_null (some x) = record { verdict = refl }

pub Reads-state_residency :
    (x : StateResidency) → Reads state_residency_schema (state_residency_value x) true
unfolding state_residency_schema state_residency_value conforms listed has_field all any of_type
    non_empty one_word is_type get_field
Reads-state_residency x =
    Reads-same
      (Reads-closed _ (record { verdict = refl })
        (Fits-field (allows-Reads refl (Reads-word _ (state_code-In x.primary))) (
          Fits-field
            (allows-Reads refl (Reads-array x.additional (λ c. Reads-word _ (state_code-In c))))
            (Fits-end))))
      (ground (arith, all_of_true (λ c. true) x.additional (λ c. refl)))

pub Reads-prior_year_context :
    (x : PriorYearContext) → Reads prior_year_context_schema (prior_year_context_value x) true
unfolding prior_year_context_schema prior_year_context_value conforms listed has_field all any
    of_type non_empty one_word is_type get_field
Reads-prior_year_context x =
    Reads-same
      (Reads-closed _ (record { verdict = refl })
        (Fits-field (allows-Reads refl (Reads-number_or_null x.estimated_agi)) (
          Fits-field (allows-Reads refl (Reads-word _ (filing_method-In x.filing_method)))
            (Fits-field (allows-Reads refl (Reads-string_or_null x.provider)) (Fits-end)))))
      (ground arith)

abbrev pub is_object : Value → Bool
is_object (obj fs) = true
is_object _ = false

abbrev pub storable_raw_artifact : RawArtifact → Bool
storable_raw_artifact x = has_text x.id && has_text x.source && if_given is_object x.extracted_data

pub Reads-raw_artifact :
    (x : RawArtifact) → Reads raw_artifact_schema (raw_artifact_value x) (storable_raw_artifact x)
unfolding raw_artifact_schema raw_artifact_value conforms listed has_field all any of_type non_empty
    one_word is_type get_field
Reads-raw_artifact x =
    Reads-same
      (Reads-closed _ (record { verdict = refl })
        (Fits-field (record { verdict = refl })
          (Fits-field (allows-Reads refl (Reads-word _ (artifact_type-In x.type))) (
            Fits-field (record { verdict = refl })
              (Fits-optional x.extracted_data (λ v. record { verdict = refl }) (Fits-end))))))
      (ground arith)

abbrev pub storable_situation_metadata : SituationMetadata → Bool
storable_situation_metadata x =
    has_text x.created_at && has_text x.updated_at && has_text x.schema_version

pub Reads-situation_metadata :
    (x : SituationMetadata)
    → Reads situation_metadata_schema (situation_metadata_value x) (storable_situation_metadata x)
unfolding situation_metadata_schema situation_metadata_value conforms listed has_field all any
    of_type non_empty one_word is_type get_field
Reads-situation_metadata x =
    Reads-same
      (Reads-closed _ (record { verdict = refl })
        (Fits-field (record { verdict = refl })
          (Fits-field (record { verdict = refl })
            (Fits-field (allows-Reads refl (Reads-word _ (tax_object_type-In x.object_type)))
              (Fits-field (record { verdict = refl }) (Fits-end))))))
      (ground arith)

-- From 0 to 1.
abbrev pub is_fraction : Number → Bool
is_fraction n = ge n (whole 0) && ge (whole 1) n

abbrev pub is_score : String × Number → Bool
is_score (path, score) = is_fraction score

Reads-scores :
    (scores : List (String × Number))
    → Fits (each_other fraction) (score_fields scores) (all is_score scores)
unfolding score_fields all conforms fraction is_type any
Reads-scores [] = Fits-end
Reads-scores ((path, score) ∷ rest) =
    Fits-same (Fits-field (record { verdict = refl }) (Reads-scores rest)) (ground arith)

Reads-score_object :
    (scores : List (String × Number))
    → Reads
        (also (type (JsonType.object ∷ [])) (also (properties (each_other fraction)) any_value))
        (obj (score_fields scores))
        (all is_score scores)
unfolding conforms is_type any
Reads-score_object scores = record { verdict = ground (arith, (Reads-scores scores).verdict) }

abbrev pub storable_confidence_scores : ConfidenceScores → Bool
storable_confidence_scores x = is_fraction x.overall && all is_score x.per_field

pub Reads-confidence_scores :
    (x : ConfidenceScores)
    → Reads confidence_scores_schema (confidence_scores_value x) (storable_confidence_scores x)
unfolding confidence_scores_schema confidence_scores_value conforms listed has_field all any of_type
    non_empty one_word is_type get_field fraction
Reads-confidence_scores x =
    Reads-same
      (Reads-closed _ (record { verdict = refl })
        (Fits-field (record { verdict = refl })
          (Fits-field (allows-Reads refl (Reads-score_object x.per_field)) (Fits-end))))
      (ground arith)
