-- ===== src/Schema/Accepted.antt =====
-- What the parts of a tax situation must satisfy beyond their types for their schemas to accept them.
use tea_tax_product.Prelude.{refl, leb, String, Bool, true, ◌&&◌, length, all, any, arith, ◌==◌}
use tea_tax_product.Js.{code_points, get_field}
use tea_tax_product.TaxSituation.{
  DocumentRef, W2Data, Form1099Data, IncomeStream, Dependent, Deduction, Credit, LifeEvent,
}
use tea_tax_product.TaxSituation.Values.{
  document_ref_value, w2_data_value, form1099_data_value, income_stream_value, dependent_value,
  deduction_value, credit_value, life_event_value,
}
use tea_tax_product.Schema.{
  conforms, listed, has_field, of_type, non_empty, one_word, is_type, is_digit,
}
use tea_tax_product.Schema.Parts.{
  document_ref_schema, w2_data_schema, form1099_data_schema, income_stream_schema, dependent_schema,
  deduction_schema, credit_schema, life_event_schema,
}
use tea_tax_product.Schema.Reading.{
  Reads, if_given, Fits-field, Fits-optional, Fits-optional_any, Fits-end, Reads-closed, Reads-same,
  Reads-array, allows-Reads, Reads-word, Has-field, Has-optional, Required-cons, Required-end,
}
use tea_tax_product.Schema.Words.{
  income_stream_type-In, deduction_type-In, credit_type-In, life_event_type-In,
}

abbrev pub has_text : String → Bool
has_text s = leb 1 (length (code_points s))

abbrev pub storable_document_ref : DocumentRef → Bool
storable_document_ref x = has_text x.artifact_id

pub Reads-document_ref :
    (x : DocumentRef) → Reads document_ref_schema (document_ref_value x) (storable_document_ref x)
unfolding document_ref_schema document_ref_value conforms listed has_field all any of_type non_empty
    one_word is_type get_field
Reads-document_ref x =
    Reads-same
      (Reads-closed _ (record { verdict = refl })
        (Fits-field (record { verdict = refl })
          (Fits-optional_any x.description (λ v. record { verdict = refl }) (Fits-end))))
      (ground arith)

pub Reads-w2_data : (x : W2Data) → Reads w2_data_schema (w2_data_value x) true
unfolding w2_data_schema w2_data_value conforms listed has_field all any of_type non_empty one_word
    is_type get_field
Reads-w2_data x =
    Reads-same
      (Reads-closed _ (record { verdict = refl })
        (Fits-field (record { verdict = refl })
          (Fits-field (record { verdict = refl })
            (Fits-field (record { verdict = refl })
              (Fits-field (record { verdict = refl })
                (Fits-field (record { verdict = refl })
                  (Fits-field (record { verdict = refl })
                    (Fits-optional_any x.state_name (λ v. record { verdict = refl })
                      (Fits-optional_any x.state_wages (λ v. record { verdict = refl })
                        (Fits-optional_any x.state_tax_withheld (λ v. record { verdict = refl })
                          (Fits-end)))))))))))
      (ground arith)

abbrev pub storable_form1099_data : Form1099Data → Bool
storable_form1099_data x = has_text x.payer_name

pub Reads-form1099_data :
    (x : Form1099Data)
    → Reads form1099_data_schema (form1099_data_value x) (storable_form1099_data x)
unfolding form1099_data_schema form1099_data_value conforms listed has_field all any of_type
    non_empty one_word is_type get_field
Reads-form1099_data x =
    Reads-same
      (Reads-closed _ (record { verdict = refl })
        (Fits-field (record { verdict = refl })
          (Fits-optional_any x.payer_tin (λ v. record { verdict = refl })
            (Fits-optional_any x.non_employee_compensation (λ v. record { verdict = refl })
              (Fits-optional_any x.other_income (λ v. record { verdict = refl })
                (Fits-optional_any x.proceeds (λ v. record { verdict = refl })
                  (Fits-optional_any x.cost_basis (λ v. record { verdict = refl })
                    (Fits-optional_any x.ordinary_dividends (λ v. record { verdict = refl })
                      (Fits-optional_any x.qualified_dividends (λ v. record { verdict = refl })
                        (Fits-optional_any x.interest_income (λ v. record { verdict = refl })
                          (Fits-optional_any x.taxable_pension_distributions
                            (λ v. record { verdict = refl })
                            (Fits-optional_any x.federal_tax_withheld
                              (λ v. record { verdict = refl }) (Fits-end)))))))))))))
      (ground arith)

abbrev pub storable_income_stream : IncomeStream → Bool
storable_income_stream x =
    has_text x.source
    && all storable_document_ref x.documentation
    && if_given storable_form1099_data x.form1099_data

pub Reads-income_stream :
    (x : IncomeStream)
    → Reads income_stream_schema (income_stream_value x) (storable_income_stream x)
unfolding income_stream_schema income_stream_value conforms listed has_field all any of_type
    non_empty one_word is_type get_field
Reads-income_stream x =
    Reads-same
      (Reads-closed _
        (Required-cons (record { verdict = refl })
          (Required-cons (record { verdict = refl })
            (Required-cons (record { verdict = refl })
              (Required-cons
                (Has-field (
                  Has-field
                    (Has-field (Has-optional _ _ x.employer_ein (record { verdict = refl })))))
                (Required-end)))))
        (Fits-field (allows-Reads refl (Reads-word _ (income_stream_type-In x.type))) (
          Fits-field (record { verdict = refl })
            (Fits-field (record { verdict = refl })
              (Fits-optional_any x.employer_ein (λ v. record { verdict = refl })
                (Fits-field (allows-Reads refl (Reads-array x.documentation Reads-document_ref)) (
                  Fits-optional_any x.w2_data (λ v. allows-Reads refl (Reads-w2_data v))
                    (Fits-optional x.form1099_data (λ v. allows-Reads refl (Reads-form1099_data v))
                      (Fits-end)))))))))
      (ground arith)

-- Four ASCII digits.
abbrev pub last_four : String → Bool
last_four s = (length (code_points s) == 4) && all is_digit (code_points s)

abbrev pub storable_dependent : Dependent → Bool
storable_dependent x =
    has_text x.first_name
    && has_text x.last_name
    && has_text x.relationship
    && has_text x.date_of_birth
    && if_given last_four x.ssn_last4

pub Reads-dependent :
    (x : Dependent) → Reads dependent_schema (dependent_value x) (storable_dependent x)
unfolding dependent_schema dependent_value conforms listed has_field all any of_type non_empty
    one_word is_type get_field
Reads-dependent x =
    Reads-same
      (Reads-closed _
        (Required-cons (record { verdict = refl })
          (Required-cons (record { verdict = refl })
            (Required-cons (record { verdict = refl })
              (Required-cons (record { verdict = refl })
                (Required-cons
                  (Has-field (
                    Has-field (
                      Has-field
                        (Has-field (Has-optional _ _ x.ssn_last4 (record { verdict = refl }))))))
                  (Required-cons
                    (Has-field (
                      Has-field (
                        Has-field
                          (Has-field (Has-optional _ _ x.ssn_last4 (record { verdict = refl }))))))
                    (Required-end)))))))
        (Fits-field (record { verdict = refl })
          (Fits-field (record { verdict = refl })
            (Fits-field (record { verdict = refl })
              (Fits-field (record { verdict = refl })
                (Fits-optional x.ssn_last4 (λ v. record { verdict = refl })
                  (Fits-field (record { verdict = refl })
                    (Fits-field (record { verdict = refl }) (Fits-end)))))))))
      (ground arith)

abbrev pub storable_deduction : Deduction → Bool
storable_deduction x = all storable_document_ref x.documentation

pub Reads-deduction :
    (x : Deduction) → Reads deduction_schema (deduction_value x) (storable_deduction x)
unfolding deduction_schema deduction_value conforms listed has_field all any of_type non_empty
    one_word is_type get_field
Reads-deduction x =
    Reads-same
      (Reads-closed _ (record { verdict = refl })
        (Fits-field (allows-Reads refl (Reads-word _ (deduction_type-In x.type))) (
          Fits-field (record { verdict = refl })
            (Fits-field (allows-Reads refl (Reads-array x.documentation Reads-document_ref))
              (Fits-end)))))
      (ground arith)

abbrev pub storable_credit : Credit → Bool
storable_credit x = all storable_document_ref x.documentation

pub Reads-credit : (x : Credit) → Reads credit_schema (credit_value x) (storable_credit x)
unfolding credit_schema credit_value conforms listed has_field all any of_type non_empty one_word
    is_type get_field
Reads-credit x =
    Reads-same
      (Reads-closed _ (record { verdict = refl })
        (Fits-field (allows-Reads refl (Reads-word _ (credit_type-In x.type))) (
          Fits-field (record { verdict = refl })
            (Fits-field (allows-Reads refl (Reads-array x.documentation Reads-document_ref))
              (Fits-end)))))
      (ground arith)

abbrev pub storable_life_event : LifeEvent → Bool
storable_life_event x = has_text x.date

pub Reads-life_event :
    (x : LifeEvent) → Reads life_event_schema (life_event_value x) (storable_life_event x)
unfolding life_event_schema life_event_value conforms listed has_field all any of_type non_empty
    one_word is_type get_field
Reads-life_event x =
    Reads-same
      (Reads-closed _ (record { verdict = refl })
        (Fits-field (allows-Reads refl (Reads-word _ (life_event_type-In x.type))) (
          Fits-field (record { verdict = refl })
            (Fits-optional_any x.details (λ v. record { verdict = refl }) (Fits-end)))))
      (ground arith)
