-- ===== src/Governance/Erasure.antt =====
-- What anonymizing a record does to each of its properties.
use tea_tax_product.Prelude.{
  ◌≡◌, refl, sym, ap, ◌∙◌, String, ◌&&◌, Option, none, some, List, [], ◌∷◌, ◌++◌, filter, arith,
  Bool-cases, inl, inr, if◌then◌else◌,
}
use mathlib.Core.List.{append-nil, append_assoc}
use tea_tax_product.Prelude.Enum.{◌===◌, string_eq, includes, includes-cons, includes-nil}
use tea_tax_product.Js.{Value, null, bool, num, str, arr, obj, Fields, get_field}
use tea_tax_product.Schema.{has_field}
use tea_tax_product.Api.{set_field}
use tea_tax_product.Api.FieldLaws.{get_field-set_field, get_field-set_field_other}
use tea_tax_product.Governance.{
  Pseudonyms, GovernanceConfig, AnonymizeRecordResult, redact, replacement, raw_text,
  anonymize_record,
}

module _ (p : Pseudonyms) (salt : Option String) (properties : Fields) where
  abbrev replaced : AnonymizeRecordResult → String → AnonymizeRecordResult
  replaced r name = record {
    anonymized = set_field r.anonymized name (replacement p salt properties name);
    redacted_fields = r.redacted_fields ++ name ∷ [];
  }

  -- A property is replaced if the loop comes by it and the record has it.
  get_field-redact :
      (names : List String) (r : AnonymizeRecordResult) (key : String)
      → get_field (redact p salt properties names r).anonymized key ≡ (
          if includes names key && has_field properties key
          then some (replacement p salt properties key)
          else get_field r.anonymized key)
  unfolding redact
  get_field-redact [] r key = ground (arith, includes-nil key)
  get_field-redact (name ∷ names) r key = elim (Bool-cases (has_field properties name)) [
    | inl h ↦
        rw (h, redact) ground
          (
            arith,
            h,
            get_field-redact names (replaced r name) key,
            includes-cons name names key,
            string_eq.test_iff name key,
            get_field-set_field r.anonymized name (replacement p salt properties name),
            get_field-set_field_other r.anonymized name key (replacement p salt properties name),
          )
    | inr h ↦
        rw (h, redact) ground
          (
            arith,
            h,
            get_field-redact names r key,
            includes-cons name names key,
            string_eq.test_iff name key,
          )
  ]

  redact-fields :
      (names : List String) (r : AnonymizeRecordResult)
      → (redact p salt properties names r).redacted_fields
        ≡ r.redacted_fields ++ filter (has_field properties) names
  unfolding redact filter
  redact-fields [] r = sym (append-nil r.redacted_fields)
  redact-fields (name ∷ names) r = elim (Bool-cases (has_field properties name)) [
    | inl h ↦
        rw (h, redact, filter)
          (redact-fields names (replaced r name)
            ∙ append_assoc r.redacted_fields (name ∷ []) (filter (has_field properties) names))
    | inr h ↦ rw (h, redact, filter) (redact-fields names r)
  ]

-- The value's text, and what must stand in place of a personal value: null without a salt, or with an empty one, and otherwise the keyed hash of
-- the field's name and the value's text, which is empty for null.
abbrev pub written : Pseudonyms → Option Value → String
written p none = ""
written p (some null) = ""
written p (some v) = p.text_of v

abbrev pub anonymous : Pseudonyms → Option String → String → Option Value → Value
anonymous p none name v = null
anonymous p (some salt) name v =
    if salt === "" then null else str (p.compute_pseudonym salt name (written p v))

raw_text-written : (p : Pseudonyms) (v : Option Value) → raw_text p v ≡ written p v
unfolding raw_text
raw_text-written p none = refl
raw_text-written p (some null) = refl
raw_text-written p (some (bool b)) = refl
raw_text-written p (some (num n)) = refl
raw_text-written p (some (str s)) = refl
raw_text-written p (some (arr vs)) = refl
raw_text-written p (some (obj fs)) = refl

replacement-anonymous :
    (p : Pseudonyms) (salt : Option String) (properties : Fields) (name : String)
    → replacement p salt properties name ≡ anonymous p salt name (get_field properties name)
unfolding replacement
replacement-anonymous p none properties name = refl
replacement-anonymous p (some salt) properties name =
    ap (λ s. if salt === "" then null else str (p.compute_pseudonym salt name s))
      (raw_text-written p (get_field properties name))

-- Anonymizing a record replaces exactly those of the given fields that it has, without a salt by null and with one by
-- the keyed hash of the field and its value, leaves every other property as it was, and reports the fields that it replaced.
pub anonymize_record_lem :
    (p : Pseudonyms) (config : GovernanceConfig) (properties : Fields) (pii_fields : List String)
    (key : String)
    → (get_field (anonymize_record p config properties pii_fields).anonymized key ≡ (
        if includes pii_fields key && has_field properties key
        then some (anonymous p config.pseudonym_salt key (get_field properties key))
        else get_field properties key))
      × ((anonymize_record p config properties pii_fields).redacted_fields
          ≡ filter (has_field properties) pii_fields)
unfolding anonymize_record
anonymize_record_lem p config properties pii_fields key = (
  get_field-redact p config.pseudonym_salt properties pii_fields
        (record { anonymized = properties; redacted_fields = [] }) key
      ∙ ap
          (λ v.
            if includes pii_fields key && has_field properties key
            then some v
            else get_field properties key)
          (replacement-anonymous p config.pseudonym_salt properties key),
  redact-fields p config.pseudonym_salt properties pii_fields
      (record { anonymized = properties; redacted_fields = [] }),
)
