-- ===== src/Governance.antt =====
-- packages/db/governance.ts: retention periods, the replacement of personal data in a record, the compliance report, and
-- the requests of data subjects, over the tables of Api. The HMAC, String(value), JSON.parse of the retention
-- setting and the audit writer are parameters. A time is in milliseconds; a retention period is a whole number
-- of days.
pub mod Erasure
pub mod Subjects
use tea_tax_product.Prelude.{
  ℕ, suc, ◌+◌, ◌*◌, ltb, String, Bool, true, false, not, ◌||◌, ◌&&◌, Option, none, some, List, [],
  ◌∷◌, ◌++◌, filter, length, if◌then◌else◌, map,
}
use tea_tax_product.Prelude.Enum.{◌===◌, string_eq}
use tea_tax_product.Prelude.Int.{ℤ, pos, negsuc}
use tea_tax_product.Js.{Value, null, bool, num, str, obj, arr, Fields, end, field, get_field}
use tea_tax_product.Schema.{has_field}
use tea_tax_product.Api.{Entity, Relation, Db, set_field}
use tea_tax_product.Audit.{AuditEventInput}

-- Types that the map has no entry for are kept without a limit, as are those with `null`.
pub record GovernanceConfig : Type 0 where
  pub retention : List (String × Option ℤ)
  pub pseudonym_salt : Option String

-- An environment variable that is not there, or empty, gives no configuration.
unfoldable pub parse_governance_config :
    (String → Option (List (String × Option ℤ)))
    → Option String
    → Option String
    → Option GovernanceConfig
parse_governance_config parse none salt = none
parse_governance_config parse (some text) salt = if text === "" then none else elim (parse text) [
  | none ↦ none
  | some retention ↦ some (record { retention = retention; pseudonym_salt = salt })
]

-- config.retention[type]?.retentionDays ?? null
unfoldable pub retention_days : List (String × Option ℤ) → String → Option ℤ
retention_days [] type = none
retention_days ((name, days) ∷ rest) type =
    let later = retention_days rest type in if name === type then days else later

abbrev pub day : ℕ
day = 1000 * (60 * (60 * 24))

-- (now - time) / day > days
unfoldable pub is_older : ℕ → ℕ → ℤ → Bool
is_older now time (pos days) = ltb (time + days * day) now
is_older now time (negsuc days) = ltb time (now + suc days * day)

-- The age is left to the two times.
pub record RetentionPolicyResult : Type 0 where
  pub expired : Bool
  pub retention_days : Option ℤ

unfoldable pub check_retention_policy : GovernanceConfig → String → ℕ → ℕ → RetentionPolicyResult
unfolding retention_days is_older
check_retention_policy config type time now = elim (retention_days config.retention type) [
  | none ↦ record { expired = false; retention_days = none }
  | some days ↦ record { expired = is_older now time days; retention_days = some days }
]

-- computePseudonym, and String(raw) of a value that is not null.
pub record Pseudonyms : Type 0 where
  pub compute_pseudonym : (salt field value : String) → String
  pub text_of : Value → String

unfoldable pub raw_text : Pseudonyms → Option Value → String
raw_text p none = ""
raw_text p (some null) = ""
raw_text p (some v) = p.text_of v

-- What a field of personal data becomes; an empty salt counts as none.
unfoldable pub replacement : Pseudonyms → Option String → Fields → String → Value
unfolding raw_text get_field
replacement p none properties name = null
replacement p (some salt) properties name =
    if salt === ""
    then null
    else str (p.compute_pseudonym salt name (raw_text p (get_field properties name)))

pub record AnonymizeRecordResult : Type 0 where
  pub anonymized : Fields
  pub redacted_fields : List String

-- The loop over the fields of personal data.
unfoldable pub redact :
    Pseudonyms
    → Option String
    → Fields
    → List String
    → AnonymizeRecordResult
    → AnonymizeRecordResult
unfolding has_field set_field replacement
redact p salt properties [] r = r
redact p salt properties (name ∷ names) r =
    let skipped = redact p salt properties names r in
    let replaced = redact p salt properties names (record {
      anonymized = set_field r.anonymized name (replacement p salt properties name);
      redacted_fields = r.redacted_fields ++ name ∷ [];
    }) in
    if has_field properties name then replaced else skipped

unfoldable pub anonymize_record :
    Pseudonyms → GovernanceConfig → Fields → List String → AnonymizeRecordResult
unfolding redact
anonymize_record p config properties pii_fields =
    redact p config.pseudonym_salt properties pii_fields
      (record { anonymized = properties; redacted_fields = [] })

-- SELECT … FROM entities WHERE id = …
unfoldable pub find_entity : String → List Entity → Option Entity
find_entity id [] = none
find_entity id (e ∷ es) = let rest = find_entity id es in if e.id === id then some e else rest

-- SELECT sensitive FROM entity_types WHERE type = …, or []
unfoldable pub pii_fields_of : List (String × List String) → String → List String
pii_fields_of [] type = []
pii_fields_of ((name, fields) ∷ rest) type =
    let later = pii_fields_of rest type in if name === type then fields else later

-- WHERE source_id = … OR target_id = …
unfoldable pub relations_of : String → List Relation → List Relation
unfolding filter
relations_of id rs = filter (λ r. r.source_id === id || r.target_id === id) rs

unfoldable pub erase_rows : String → Fields → ℕ → List Entity → List Entity
erase_rows id fs now [] = []
erase_rows id fs now (e ∷ es) =
    (if e.id === id
      then record {
        id = e.id;
        type = e.type;
        properties = fs;
        version = e.version;
        created_at = e.created_at;
        updated_at = now;
      }
      else e)
    ∷ erase_rows id fs now es

pub data DataSubjectResult : Type 0 where
  erasure : (subject_id : String) → List String → (audit_entry_written : Bool) → DataSubjectResult
  export : (subject_id entity_type : String) → Fields → List Relation → DataSubjectResult

-- The surroundings of a request: the table entity_types, the audit writer (false when it throws), and NOW().
pub record Office : Type 0 where
  pub entity_types : List (String × List String)
  pub audit_writer : Option (AuditEventInput → Bool)
  pub actor_id : String
  pub now : ℕ

unfoldable pub audit_written : Option (AuditEventInput → Bool) → AuditEventInput → Bool
audit_written none event = false
audit_written (some write) event = write event

unfoldable pub erasure_event : Office → String → Entity → Fields → AuditEventInput
erasure_event office id e anonymized = record {
  actor_id = office.actor_id;
  action = "data_subject.erasure";
  entity_type = e.type;
  entity_id = id;
  before = obj e.properties;
  after = obj anonymized;
  ts = office.now;
}

-- `none` stands for the error that the entity is not found.
unfoldable pub export_subject : String → Db → Option DataSubjectResult
unfolding find_entity relations_of
export_subject id db = elim (find_entity id db.entities) [
  | none ↦ none
  | some e ↦ some (export id e.type e.properties (relations_of id db.relations))
]

unfoldable pub anonymize_entity :
    Pseudonyms → GovernanceConfig → Office → Entity → AnonymizeRecordResult
unfolding anonymize_record pii_fields_of
anonymize_entity p config office e =
    anonymize_record p config e.properties (pii_fields_of office.entity_types e.type)

unfoldable pub erase_subject :
    Pseudonyms → GovernanceConfig → Office → String → Db → Option (DataSubjectResult × Db)
unfolding find_entity anonymize_entity erase_rows audit_written erasure_event
erase_subject p config office id db = elim (find_entity id db.entities) [
  | none ↦ none
  | some e ↦
      let r = anonymize_entity p config office e in
      some (
        erasure id r.redacted_fields
            (audit_written office.audit_writer (erasure_event office id e r.anonymized)),
        record {
          entities = erase_rows id r.anonymized office.now db.entities;
          relations = db.relations;
        },
      )
]

pub record ComplianceReportEntry : Type 0 where
  pub entity_type : String
  pub retention_days : Option ℤ
  pub subject_count : ℕ
  pub pii_fields : List String

-- The entries, for the entity types in the order in which the table gives them.
unfoldable pub compliance_entries :
    List (String × List String) → GovernanceConfig → Db → List ComplianceReportEntry
unfolding filter
compliance_entries [] config db = []
compliance_entries ((name, fields) ∷ rest) config db =
    (record {
      entity_type = name;
      retention_days = retention_days config.retention name;
      subject_count = length (filter (λ e. e.type === name) db.entities);
      pii_fields = fields;
    })
    ∷ compliance_entries rest config db
