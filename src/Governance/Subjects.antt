-- ===== src/Governance/Subjects.antt =====
-- Requests of data subjects, and retention.
use tea_tax_product.Prelude.{
  ℕ, ◌≤◌, ◌≡◌, refl, sym, ◌∙◌, String, true, false, some, List, [], ◌∷◌, arith, Option-cases, inl,
  inr,
}
use mathlib.Core.Bool.{true≢false}
use tea_tax_product.Prelude.Int.{ℤ, pos, negsuc}
use tea_tax_product.Prelude.Enum.{◌===◌, string_eq}
use tea_tax_product.Js.{Fields}
use tea_tax_product.Api.{Entity, Db}
use tea_tax_product.Governance.{
  GovernanceConfig, Pseudonyms, Office, erasure, export, find_entity, erase_rows, relations_of,
  erase_subject, export_subject, anonymize_entity, audit_written, erasure_event,
  check_retention_policy, retention_days, is_older,
}

with_fields : Entity → Fields → ℕ → Entity
with_fields e fs now = record {
  id = e.id;
  type = e.type;
  properties = fs;
  version = e.version;
  created_at = e.created_at;
  updated_at = now;
}

find_entity-erase_rows :
    (id : String) (fs : Fields) (now : ℕ) (es : List Entity) (e : Entity)
    → find_entity id es ≡ some e
    → find_entity id (erase_rows id fs now es) ≡ some (with_fields e fs now)
unfolding find_entity erase_rows with_fields
find_entity-erase_rows id fs now [] e h = ground arith
find_entity-erase_rows id fs now (x ∷ es) e h =
    ground (arith, find_entity-erase_rows id fs now es e, string_eq.test_iff x.id id)

find_entity-erase_rows_other :
    (id : String) (fs : Fields) (now : ℕ) (es : List Entity) (other : String)
    → (other === id) ≡ false
    → find_entity other (erase_rows id fs now es) ≡ find_entity other es
unfolding find_entity erase_rows
find_entity-erase_rows_other id fs now [] other h = refl
find_entity-erase_rows_other id fs now (x ∷ es) other h = ground (
  arith,
  find_entity-erase_rows_other id fs now es other h,
  string_eq.test_iff x.id id,
  string_eq.test_iff x.id other,
  string_eq.test_iff other id,
)

-- The tables after the erasure of the entity `e`.
abbrev pub erased : Pseudonyms → GovernanceConfig → Office → String → Entity → Db → Db
erased p config office id e db = record {
  entities = erase_rows id (anonymize_entity p config office e).anonymized office.now db.entities;
  relations = db.relations;
}

module _ (p : Pseudonyms) (config : GovernanceConfig) (office : Office) (id : String) (db : Db)
    (e : Entity) where
  erase_subject-some :
      find_entity id db.entities ≡ some e
      → erase_subject p config office id db
        ≡ some (
          erasure id (anonymize_entity p config office e).redacted_fields (
              audit_written office.audit_writer
                (erasure_event office id e (anonymize_entity p config office e).anonymized)),
          erased p config office id e db,
        )
  unfolding erase_subject
  erase_subject-some h = rw (h, erase_subject) refl

  -- The erasure of a subject that is in the tables succeeds, whatever becomes of the audit entry. Its export then returns
  -- the anonymized properties, with its type and its relations as they were, and the export of any other identifier is what
  -- it was before.
  pub erase_subject-export :
      (other : String)
      → find_entity id db.entities ≡ some e
      → (other === id) ≡ false
      → (erase_subject p config office id db
          ≡ some (
            erasure id (anonymize_entity p config office e).redacted_fields (
                audit_written office.audit_writer
                  (erasure_event office id e (anonymize_entity p config office e).anonymized)),
            erased p config office id e db,
          ))
        × ((export_subject id (erased p config office id e db)
              ≡ some (
                  export id e.type
                    (anonymize_entity p config office e).anonymized
                    (relations_of id db.relations)))
            × (export_subject other (erased p config office id e db) ≡ export_subject other db))
  unfolding export_subject with_fields
  erase_subject-export other h k =
      let fs = (anonymize_entity p config office e).anonymized in
      (
        erase_subject-some h,
        (
          rw (find_entity-erase_rows id fs office.now db.entities e h, export_subject) refl,
          rw (find_entity-erase_rows_other id fs office.now db.entities other k, export_subject)
              refl,
        ),
      )

is_older_mono :
    (days : ℤ) (time now time2 now2 : ℕ)
    → time2 ≤ time
    → now ≤ now2
    → is_older now time days ≡ true
    → is_older now2 time2 days ≡ true
unfolding is_older
is_older_mono (pos d) time now time2 now2 t n h = ground arith
is_older_mono (negsuc d) time now time2 now2 t n h = ground arith

-- A record that has expired stays expired: under the same configuration, at a later time, and for an older record of the
-- same type.
check_retention_policy_mono :
    (config : GovernanceConfig) (type : String) (time now time2 now2 : ℕ)
    → time2 ≤ time
    → now ≤ now2
    → (check_retention_policy config type time now).expired ≡ true
    → (check_retention_policy config type time2 now2).expired ≡ true
unfolding check_retention_policy
check_retention_policy_mono config type time now time2 now2 t n h =
    elim (Option-cases (retention_days config.retention type)) [
      | inl e ↦ absurd (true≢false (sym h ∙ rw (e, check_retention_policy) refl))
      | inr q ↦
          rw (q.1, check_retention_policy)
            (is_older_mono q.0 time now time2 now2 t n
              (sym (rw (q.1, check_retention_policy) refl) ∙ h))
    ]
