-- ===== src/Api/Stored.antt =====
-- What the tables hold: every value that a client sent has passed its schema.
use tea_tax_product.Prelude.{
  ◌≡◌, refl, String, Bool, true, ◌&&◌, Option, none, some, arith, ap, ◌∙◌, if◌then◌else◌,
}
use tea_tax_product.Prelude.Enum.{◌===◌, string_eq, includes}
use tea_tax_product.Js.{Value, Fields, end, get_field, property}
use tea_tax_product.Schema.{Schema, conforms, one_word, year, listed}
use tea_tax_product.Schema.Enums.{tax_object_type_enum, filing_status_enum}
use tea_tax_product.Schema.Bodies.{
  tax_situation_schema, create_tax_object_schema, patch_tax_object_schema, create_tax_return_schema,
  patch_tax_return_schema,
}
use tea_tax_product.Schema.Reading.{if_given, if_there}
use tea_tax_product.Schema.Readable.{closed-given, closed-held, partial-given}
use tea_tax_product.Api.{Entity, Surroundings}
use tea_tax_product.Api.TaxObjects.{new_object, merged_object}
use tea_tax_product.Api.NewReturn.{new_return}
use tea_tax_product.Api.TaxReturns.{merged_return}
use tea_tax_product.Api.FieldLaws.{get_field-optional, get_field-optional_other, or_kept}
use tea_tax_product.Api.Patches.{merged_return_lem, merged_object_lem}

abbrev given_ok : Schema → Option Value → Bool
given_ok s o = if_given (λ w. conforms s w) o

abbrev held_ok : Schema → Option Value → Bool
held_ok s o = if_there (λ w. conforms s w) o

abbrev pub stored_object : Fields → Bool
stored_object fs =
    held_ok (one_word tax_object_type_enum) (get_field fs "object_type")
    && held_ok year (get_field fs "filing_year")

abbrev pub stored_return : Fields → Bool
stored_return fs =
    held_ok (one_word filing_status_enum) (get_field fs "filing_status")
    && given_ok tax_situation_schema (get_field fs "situation_data")

-- A tax object has a type, a known one, and a year from 2000 to 2100; a tax return has a known filing status and, if any, a
-- situation that the schema of tax situations accepts.
abbrev pub stored : Entity → Bool
stored e =
    if e.type === "tax_object"
    then stored_object e.properties
    else if e.type === "tax_return"
    then stored_return e.properties
    else true

or_kept-ok :
    (s : Schema) (o old : Option Value)
    → given_ok s o ≡ true
    → given_ok s old ≡ true
    → given_ok s (or_kept o old) ≡ true
or_kept-ok s none old h k = k
or_kept-ok s (some v) old h k = h

or_kept-held :
    (s : Schema) (o old : Option Value)
    → given_ok s o ≡ true
    → held_ok s old ≡ true
    → held_ok s (or_kept o old) ≡ true
or_kept-held s none old h k = k
or_kept-held s (some v) old h k = h

-- Both tests of a pair hold.
both : (a b : Bool) → a ≡ true → b ≡ true → (a && b) ≡ true
both a b h k = rw (h, k) refl

first_of : (a b : Bool) → (a && b) ≡ true → a ≡ true
first_of a b h = ground arith

second_of : (a b : Bool) → (a && b) ≡ true → b ≡ true
second_of a b h = ground arith

module _ (around : Surroundings) (user : String) (body : Value) where
  new_object-kind :
      get_field (new_object around user body).properties "object_type" ≡ property body "objectType"
  unfolding new_object get_field
  new_object-kind =
      get_field-optional "object_type" (property body "objectType") _
        (get_field-optional_other "filing_year" _ (property body "filingYear") _ "object_type" refl)

  new_object-year :
      get_field (new_object around user body).properties "filing_year" ≡ property body "filingYear"
  unfolding new_object get_field
  new_object-year =
      get_field-optional_other "object_type" _ (property body "objectType") _ "filing_year" refl
      ∙ get_field-optional "filing_year" (property body "filingYear") _ refl

  pub new_object-stored :
      conforms create_tax_object_schema body ≡ true
      → stored_object (new_object around user body).properties ≡ true
  unfolding create_tax_object_schema listed conforms includes
  new_object-stored h =
      both _ _
        (ap (held_ok (one_word tax_object_type_enum)) new_object-kind
          ∙ closed-held _ _ body "objectType" (one_word tax_object_type_enum) h refl (λ w. refl))
        (ap (held_ok year) new_object-year
          ∙ closed-held _ _ body "filingYear" year h refl (λ w. refl))

  pub merged_object-stored :
      (fs : Fields)
      → conforms patch_tax_object_schema body ≡ true
      → stored_object fs ≡ true
      → stored_object (merged_object fs body) ≡ true
  unfolding patch_tax_object_schema listed conforms
  merged_object-stored fs h e =
      let laws = merged_object_lem fs body "status" refl refl refl in
      both _ _
        (ap (held_ok (one_word tax_object_type_enum)) laws.0
          ∙ or_kept-held (one_word tax_object_type_enum) (property body "objectType")
              (get_field fs "object_type")
              (partial-given _ "objectType" (one_word tax_object_type_enum) (record { verdict = h })
                (λ w. refl))
              (first_of _ _ e))
        (ap (held_ok year) laws.1.0
          ∙ or_kept-held year (property body "filingYear") (get_field fs "filing_year")
              (partial-given _ "filingYear" year (record { verdict = h }) (λ w. refl))
              (second_of _ _ e))

module _ (around : Surroundings) (object_id : String) (body : Value) where
  new_return-status :
      get_field (new_return around object_id body).properties "filing_status"
      ≡ property body "filingStatus"
  unfolding new_return get_field
  new_return-status =
      get_field-optional_other "tax_year" _ (property body "filingYear") _ "filing_status" refl
      ∙ get_field-optional "filing_status" (property body "filingStatus") _ (
          get_field-optional_other "situation_data" _ (property body "situationData") end
            "filing_status" refl)

  new_return-situation :
      get_field (new_return around object_id body).properties "situation_data"
      ≡ property body "situationData"
  unfolding new_return get_field
  new_return-situation =
      get_field-optional_other "tax_year" _ (property body "filingYear") _ "situation_data" refl
      ∙ get_field-optional_other "filing_status" _ (property body "filingStatus") _ "situation_data"
          refl
      ∙ get_field-optional "situation_data" (property body "situationData") end refl

  pub new_return-stored :
      conforms create_tax_return_schema body ≡ true
      → stored_return (new_return around object_id body).properties ≡ true
  unfolding create_tax_return_schema listed conforms includes
  new_return-stored h =
      both _ _
        (ap (held_ok (one_word filing_status_enum)) new_return-status
          ∙ closed-held _ _ body "filingStatus" (one_word filing_status_enum) h refl (λ w. refl))
        (ap (given_ok tax_situation_schema) new_return-situation
          ∙ closed-given _ _ "situationData" tax_situation_schema (record { verdict = h })
              (λ w. refl))

pub merged_return-stored :
    (fs : Fields) (body : Value)
    → conforms patch_tax_return_schema body ≡ true
    → stored_return fs ≡ true
    → stored_return (merged_return fs body) ≡ true
unfolding patch_tax_return_schema listed conforms
merged_return-stored fs body h e =
    let laws = merged_return_lem fs body "status" refl refl in
    both _ _
      (ap (held_ok (one_word filing_status_enum)) laws.0
        ∙ or_kept-held (one_word filing_status_enum) (property body "filingStatus")
            (get_field fs "filing_status")
            (partial-given _ "filingStatus" (one_word filing_status_enum) (record { verdict = h })
              (λ w. refl))
            (first_of _ _ e))
      (ap (given_ok tax_situation_schema) laws.1.0
        ∙ or_kept-ok tax_situation_schema (property body "situationData")
            (get_field fs "situation_data")
            (partial-given _ "situationData" tax_situation_schema (record { verdict = h })
              (λ w. refl))
            (second_of _ _ e))
