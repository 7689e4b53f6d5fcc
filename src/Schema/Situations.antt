-- ===== src/Schema/Situations.antt =====
-- taxSituationSchema of packages/core/tax-situation-schema.ts on the situations of packages/core/tax-situation.ts.
use tea_tax_product.Prelude.{
  ◌≡◌, refl, ◌+◌, ◌%◌, Bool, true, ◌&&◌, Option, none, some, all, any, arith, ◌==◌,
}
use tea_tax_product.Prelude.Int.{pos_part, neg_part}
use tea_tax_product.Prelude.Number.{Number, ge, whole}
use tea_tax_product.Js.{obj, get_field}
use tea_tax_product.TaxSituation.{TaxSituation, PriorYearContext}
use tea_tax_product.TaxSituation.Values.{tax_situation_fields, or_null, prior_year_context_value}
use tea_tax_product.Schema.{
  conforms, listed, has_field, of_type, non_empty, one_word, is_type, fraction, year, also, one_of,
  any_value, JsonType,
}
use tea_tax_product.Schema.Parts.{prior_year_context_schema}
use tea_tax_product.Schema.Bodies.{tax_situation_schema}
use tea_tax_product.Schema.Words.{filing_status-In}
use tea_tax_product.Schema.Reading.{
  Reads, Fits-field, Fits-end, Reads-closed, Reads-same, Reads-array, allows-Reads, Reads-word,
}
use tea_tax_product.Schema.Accepted.{
  has_text, storable_dependent, storable_income_stream, storable_deduction, storable_credit,
  storable_life_event, Reads-dependent, Reads-income_stream, Reads-deduction, Reads-credit,
  Reads-life_event,
}
use tea_tax_product.Schema.AcceptedParts.{
  storable_raw_artifact, storable_situation_metadata, storable_confidence_scores, is_fraction,
  Reads-raw_artifact, Reads-situation_metadata, Reads-confidence_scores, Reads-state_residency,
  Reads-prior_year_context,
}

-- A whole number from 2000 to 2100.
abbrev pub is_year : Number → Bool
is_year n = ((pos_part n + neg_part n) % 65536 == 0) && ge n (whole 2000) && ge (whole 2100) n

abbrev pub storable : TaxSituation → Bool
storable s =
    has_text s.id
    && has_text s.version
    && is_year s.filing_year
    && all storable_dependent s.dependents
    && all storable_income_stream s.income_streams
    && all storable_deduction s.deductions
    && all storable_credit s.credits
    && all storable_life_event s.life_events
    && is_fraction s.documentation_completeness
    && storable_confidence_scores s.confidence_scores
    && all storable_raw_artifact s.raw_artifacts
    && storable_situation_metadata s.metadata

-- Either branch of the `oneOf` takes what the other refuses.
Reads-prior_year :
    (o : Option PriorYearContext)
    → Reads
        (also (one_of prior_year_context_schema (of_type JsonType.null)) any_value)
        (or_null prior_year_context_value o)
        true
unfolding or_null conforms is_type any of_type prior_year_context_value prior_year_context_schema
    tea_tax_product.Schema.closed
Reads-prior_year none = record { verdict = refl }
Reads-prior_year (some x) = record {
  verdict = ground (arith, (Reads-prior_year_context x).verdict);
}

Reads-tax_situation :
    (s : TaxSituation) → Reads tax_situation_schema (obj (tax_situation_fields s)) (storable s)
unfolding tax_situation_schema tax_situation_fields conforms listed has_field all any of_type
    non_empty one_word is_type get_field fraction year
Reads-tax_situation s =
    Reads-same
      (Reads-closed _ (record { verdict = refl })
        (Fits-field (record { verdict = refl })
          (Fits-field (record { verdict = refl })
            (Fits-field (record { verdict = refl })
              (Fits-field (allows-Reads refl (Reads-word _ (filing_status-In s.filing_status))) (
                Fits-field (allows-Reads refl (Reads-array s.dependents Reads-dependent)) (
                  Fits-field (allows-Reads refl (Reads-array s.income_streams Reads-income_stream))
                    (Fits-field (allows-Reads refl (Reads-array s.deductions Reads-deduction)) (
                      Fits-field (allows-Reads refl (Reads-array s.credits Reads-credit)) (
                        Fits-field (allows-Reads refl (Reads-array s.life_events Reads-life_event))
                          (Fits-field (allows-Reads refl (Reads-prior_year s.prior_year_context)) (
                            Fits-field (allows-Reads refl (Reads-state_residency s.state_residency))
                              (Fits-field (record { verdict = refl })
                                (Fits-field
                                  (allows-Reads refl (Reads-confidence_scores s.confidence_scores))
                                  (Fits-field
                                    (allows-Reads refl
                                      (Reads-array s.raw_artifacts Reads-raw_artifact))
                                    (Fits-field
                                      (allows-Reads refl (Reads-situation_metadata s.metadata))
                                      Fits-end))))))))))))))))
      (ground arith)

-- The schema of tax situations accepts the value of a tax situation exactly when the situation is
-- storable: its texts that the schema wants non-empty are, its year is a whole one from 2000 to 2100, its
-- scores lie from 0 to 1, the last four digits of a social security number are four digits, and extracted
-- data is an object. Every filing status, type, state and method of the unions is accepted.
pub tax_situation_schema-conforms :
    (s : TaxSituation) → conforms tax_situation_schema (obj (tax_situation_fields s)) ≡ storable s
tax_situation_schema-conforms s = (Reads-tax_situation s).verdict
