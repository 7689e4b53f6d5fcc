-- ===== src/Tests/Governance.antt =====
-- Requests of data subjects at the tables of Tests.Api.
use tea_tax_product.Prelude.{◌≡◌, refl, String, true, false, none, some, [], ◌∷◌, filter}
use tea_tax_product.Prelude.Enum.{includes, string_eq}
use tea_tax_product.Prelude.Int.{pos}
use tea_tax_product.Js.{str, Fields, end, field, get_field, property}
use tea_tax_product.Schema.{has_field}
use tea_tax_product.Api.{Entity, Db}
use tea_tax_product.Governance.{
  GovernanceConfig, Pseudonyms, Office, erasure, export, erase_subject, export_subject,
  anonymize_record, anonymize_entity, replacement, relations_of, audit_written, erasure_event,
  check_retention_policy, find_entity,
}
use tea_tax_product.Governance.Erasure.{anonymize_record_lem}
use tea_tax_product.Governance.Subjects.{erased, erase_subject-export}

abbrev pseudonyms : Pseudonyms
pseudonyms = record { compute_pseudonym = λ salt name value. "xyz"; text_of = λ v. "text" }

abbrev config : GovernanceConfig
config = record {
  retention = ("user", some (pos 365)) ∷ ("task", none) ∷ [];
  pseudonym_salt = some "salt";
}

abbrev office : Office
office = record {
  entity_types = ("user", "email" ∷ "phone" ∷ []) ∷ [];
  audit_writer = some (λ event. true);
  actor_id = "admin";
  now = 50;
}

abbrev user_fields : Fields
user_fields = field "email" (str "a@b") (field "role" (str "user") end)

abbrev person : String → Entity
person id = record {
  id = id;
  type = "user";
  properties = user_fields;
  version = 1;
  created_at = 10;
  updated_at = 10;
}

abbrev people : Db
people = record {
  entities = person "u-1" ∷ person "u-2" ∷ [];
  relations = record { id = "x"; source_id = "u-1"; target_id = "o-1"; type = "owns" } ∷ [];
}

anonymize_record_lem_example :
    (get_field
        (anonymize_record pseudonyms config user_fields ("email" ∷ "phone" ∷ [])).anonymized
        "email"
      ≡ some (str "xyz"))
    × ((anonymize_record pseudonyms config user_fields ("email" ∷ "phone" ∷ [])).redacted_fields
        ≡ "email" ∷ [])
unfolding includes filter has_field replacement
anonymize_record_lem_example =
    anonymize_record_lem pseudonyms config user_fields ("email" ∷ "phone" ∷ []) "email"

found : find_entity "u-1" people.entities ≡ some (person "u-1")
unfolding find_entity
found = refl

erase_subject-export_example :
    (erase_subject pseudonyms config office "u-1" people
      ≡ some (
        erasure "u-1"
            (anonymize_entity pseudonyms config office (person "u-1")).redacted_fields
            true,
        erased pseudonyms config office "u-1" (person "u-1") people,
      ))
    × ((export_subject "u-1" (erased pseudonyms config office "u-1" (person "u-1") people)
          ≡ some (
              export "u-1" "user"
                (anonymize_entity pseudonyms config office (person "u-1")).anonymized
                (relations_of "u-1" people.relations)))
        × (export_subject "u-2" (erased pseudonyms config office "u-1" (person "u-1") people)
            ≡ export_subject "u-2" people))
unfolding audit_written
erase_subject-export_example =
    erase_subject-export pseudonyms config office "u-1" people (person "u-1") "u-2" found refl

-- The event that the writer stores still has the erased value.
event_keeps_value :
    property (erasure_event office "u-1" (person "u-1") end).before "email" ≡ some (str "a@b")
unfolding erasure_event property
event_keeps_value = refl

-- A user is kept for 365 days, a task without limit.
year_later : (check_retention_policy config "user" 0 31536000000).expired ≡ false
unfolding check_retention_policy
year_later = refl

day_after : (check_retention_policy config "user" 0 31536000001).expired ≡ true
unfolding check_retention_policy
day_after = refl

task_kept : (check_retention_policy config "task" 0 31536000001).expired ≡ false
unfolding check_retention_policy
task_kept = refl
