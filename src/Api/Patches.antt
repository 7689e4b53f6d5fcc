-- ===== src/Api/Patches.antt =====
-- What PATCH makes of the stored properties.
use tea_tax_product.Prelude.{◌≡◌, refl, String, false, ap, ◌∙◌}
use tea_tax_product.Prelude.Enum.{◌===◌, string_eq}
use tea_tax_product.Js.{Value, Fields, get_field, property}
use tea_tax_product.Api.FieldLaws.{get_field-set_given, get_field-set_given_other, or_kept}
use tea_tax_product.Api.{set_given}
use tea_tax_product.Api.TaxObjects.{merged_object}
use tea_tax_product.Api.TaxReturns.{merged_return}

-- PATCH of a tax return replaces its filing status and its situation by what the body gives, and keeps every
-- other property: its tax object, its year, its jurisdiction, its kind and its state among them.
pub merged_return_lem :
    (fs : Fields) (body : Value) (key : String)
    → ("filing_status" === key) ≡ false
    → ("situation_data" === key) ≡ false
    → (get_field (merged_return fs body) "filing_status"
        ≡ or_kept (property body "filingStatus") (get_field fs "filing_status"))
      × ((get_field (merged_return fs body) "situation_data"
            ≡ or_kept (property body "situationData") (get_field fs "situation_data"))
          × (get_field (merged_return fs body) key ≡ get_field fs key))
unfolding merged_return
merged_return_lem fs body key h k =
    let first = set_given fs "filing_status" (property body "filingStatus") in
    (
      get_field-set_given_other first "situation_data" "filing_status"
            (property body "situationData") refl
          ∙ get_field-set_given fs "filing_status" (property body "filingStatus"),
      (
        get_field-set_given first "situation_data" (property body "situationData")
            ∙ ap (or_kept (property body "situationData")) (
                get_field-set_given_other fs "filing_status" "situation_data"
                  (property body "filingStatus") refl),
        get_field-set_given_other first "situation_data" key (property body "situationData") k
            ∙ get_field-set_given_other fs "filing_status" key (property body "filingStatus") h,
      ),
    )

-- PATCH of a tax object replaces its type, its year and its name by what the body gives, and keeps every
-- other property: its owner and its state among them.
pub merged_object_lem :
    (fs : Fields) (body : Value) (key : String)
    → ("object_type" === key) ≡ false
    → ("filing_year" === key) ≡ false
    → ("display_name" === key) ≡ false
    → (get_field (merged_object fs body) "object_type"
        ≡ or_kept (property body "objectType") (get_field fs "object_type"))
      × ((get_field (merged_object fs body) "filing_year"
            ≡ or_kept (property body "filingYear") (get_field fs "filing_year"))
          × ((get_field (merged_object fs body) "display_name"
                ≡ or_kept (property body "label") (get_field fs "display_name"))
              × (get_field (merged_object fs body) key ≡ get_field fs key)))
unfolding merged_object
merged_object_lem fs body key h k l =
    let one = set_given fs "object_type" (property body "objectType") in
    let two = set_given one "filing_year" (property body "filingYear") in
    let label = property body "label" in
    let year = property body "filingYear" in
    let kind = property body "objectType" in
    (
      get_field-set_given_other two "display_name" "object_type" label refl
          ∙ get_field-set_given_other one "filing_year" "object_type" year refl
          ∙ get_field-set_given fs "object_type" kind,
      (
        get_field-set_given_other two "display_name" "filing_year" label refl
            ∙ get_field-set_given one "filing_year" year
            ∙ ap (or_kept year)
                (get_field-set_given_other fs "object_type" "filing_year" kind refl),
        (
          get_field-set_given two "display_name" label
              ∙ ap (or_kept label) (
                  get_field-set_given_other one "filing_year" "display_name" year refl
                  ∙ get_field-set_given_other fs "object_type" "display_name" kind refl),
          get_field-set_given_other two "display_name" key label l
              ∙ get_field-set_given_other one "filing_year" key year k
              ∙ get_field-set_given_other fs "object_type" key kind h,
        ),
      ),
    )
