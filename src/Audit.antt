-- ===== src/Audit.antt =====
-- The hash-chained audit log: packages/core/audit.ts (the hash of a row), apps/server/src/policies/audit-service.ts
-- (appending a row), apps/server/src/api/audit.ts (verifying the chain). A time is counted in milliseconds, an
-- identifier is the number of its UUID. SHA-256 and the runtime's texts of strings, numbers and times are
-- parameters. The values `before` and `after` have no undefined properties, and the database gives them back up to the
-- order of their keys.
pub mod Chain
pub mod Tampering
use Prim.Native.String.{◌++◌ as str_append}
use tea_tax_product.Prelude.{
  ℕ, ◌+◌, ltb, String, Bool, true, false, ◌&&◌, ◌||◌, Option, none, some, List, [], ◌∷◌, ◌==◌,
  if◌then◌else◌,
}
use tea_tax_product.Prelude.Enum.{◌===◌, string_eq}
use tea_tax_product.Prelude.Number.{Number}
use tea_tax_product.Js.{
  Value, null, bool, num, str, obj, arr, Fields, end, field, Items, no_items, item,
}

pub record AuditEventInput : Type 0 where
  pub actor_id : String
  pub action : String
  pub entity_type : String
  pub entity_id : String
  pub before : Value
  pub after : Value
  pub ts : ℕ

pub record AuditEventRow : Type 0 where
  pub id : ℕ
  pub event : AuditEventInput
  pub prev_hash : String
  pub hash : String

-- JSON.stringify of a text and of a number, `a < b` on texts, toISOString, and the hex digits of SHA-256.
pub record Platform : Type 0 where
  pub quote : String → String
  pub number_text : Number → String
  pub text_less : String → String → Bool
  pub iso : ℕ → String
  pub sha256 : String → String

-- a + b + …
unfoldable pub texts : List String → String
texts [] = ""
texts (s ∷ ss) = str_append s (texts ss)

-- The texts of properties, in the order of their keys.
unfoldable pub insert_key :
    Platform → String → String → List (String × String) → List (String × String)
insert_key p key text [] = (key, text) ∷ []
insert_key p key text ((k, t) ∷ rest) =
    let later = insert_key p key text rest in
    if p.text_less k key then (k, t) ∷ later else (key, text) ∷ (k, t) ∷ rest

-- join(',')
unfoldable pub join_items : List String → String
join_items [] = ""
join_items (s ∷ []) = s
join_items (s ∷ t ∷ ss) = str_append s (str_append "," (join_items (t ∷ ss)))

unfoldable pub key_texts : Platform → List (String × String) → List String
unfolding texts
key_texts p [] = []
key_texts p ((key, text) ∷ rest) = texts (p.quote key ∷ ":" ∷ text ∷ []) ∷ key_texts p rest

unfoldable mutual
  unfolding texts insert_key join_items key_texts

  pub canonical_json : Platform → Value → String
  canonical_json p null = "null"
  canonical_json p (bool b) = if b then "true" else "false"
  canonical_json p (num n) = p.number_text n
  canonical_json p (str s) = p.quote s
  canonical_json p (arr vs) = texts ("[" ∷ join_items (item_texts p vs) ∷ "]" ∷ [])
  canonical_json p (obj fs) = texts ("{" ∷ join_items (key_texts p (sorted_texts p fs)) ∷ "}" ∷ [])

  pub item_texts : Platform → Items → List String
  item_texts p no_items = []
  item_texts p (item v vs) = canonical_json p v ∷ item_texts p vs

  pub sorted_texts : Platform → Fields → List (String × String)
  sorted_texts p end = []
  sorted_texts p (field k v rest) = insert_key p k (canonical_json p v) (sorted_texts p rest)

-- What is hashed.
unfoldable pub hash_text : Platform → String → AuditEventInput → String
unfolding texts canonical_json
hash_text p prev_hash e = texts (
    prev_hash
    ∷ "{\"actor_id\":"
    ∷ p.quote e.actor_id
    ∷ ",\"action\":"
    ∷ p.quote e.action
    ∷ ",\"entity_type\":"
    ∷ p.quote e.entity_type
    ∷ ",\"entity_id\":"
    ∷ p.quote e.entity_id
    ∷ ",\"before\":"
    ∷ canonical_json p e.before
    ∷ ",\"after\":"
    ∷ canonical_json p e.after
    ∷ ",\"ts\":"
    ∷ p.quote (p.iso e.ts)
    ∷ "}"
    ∷ [])

unfoldable pub compute_audit_hash : Platform → String → AuditEventInput → String
unfolding hash_text
compute_audit_hash p prev_hash e = p.sha256 (hash_text p prev_hash e)

-- ORDER BY ts, id
unfoldable pub precedes : AuditEventRow → AuditEventRow → Bool
precedes a b = ltb a.event.ts b.event.ts || (a.event.ts == b.event.ts && ltb a.id b.id)

-- ORDER BY ts DESC, id DESC LIMIT 1
unfoldable pub latest : List AuditEventRow → Option AuditEventRow
unfolding precedes
latest [] = none
latest (r ∷ rows) = elim (latest rows) [
  | none ↦ some r
  | some m ↦ if precedes m r then some r else some m
]

-- latestRows[0]?.hash ?? resolveGenesisHash()
unfoldable pub hash_before : String → List AuditEventRow → String
unfolding latest
hash_before genesis rows = elim (latest rows) [ none ↦ genesis | some m ↦ m.hash ]

-- The row that is inserted, with its identifier from the database.
unfoldable pub next_row :
    Platform → String → ℕ → AuditEventInput → List AuditEventRow → AuditEventRow
unfolding hash_before compute_audit_hash
next_row p genesis id e rows = record {
  id = id;
  event = e;
  prev_hash = hash_before genesis rows;
  hash = compute_audit_hash p (hash_before genesis rows) e;
}

unfoldable pub emit_audit_event :
    Platform → String → ℕ → AuditEventInput → List AuditEventRow → List AuditEventRow
unfolding next_row
emit_audit_event p genesis id e rows = next_row p genesis id e rows ∷ rows

-- ORDER BY ts ASC, id ASC
unfoldable pub insert_row : AuditEventRow → List AuditEventRow → List AuditEventRow
unfolding precedes
insert_row r [] = r ∷ []
insert_row r (x ∷ xs) =
    let later = insert_row r xs in if precedes x r then x ∷ later else r ∷ x ∷ xs

unfoldable pub ordered : List AuditEventRow → List AuditEventRow
unfolding insert_row
ordered [] = []
ordered (r ∷ rows) = insert_row r (ordered rows)

-- The loop over the rows: the first invalid identifier.
unfoldable pub check_rows : Platform → String → List AuditEventRow → Option ℕ
unfolding compute_audit_hash
check_rows p expected [] = none
check_rows p expected (r ∷ rows) =
    let rest = check_rows p r.hash rows in
    if r.prev_hash === expected
    then if compute_audit_hash p r.prev_hash r.event === r.hash then rest else some r.id
    else some r.id

-- `none` for { valid: true }, an identifier for { valid: false, firstInvalidId }
unfoldable pub verify_chain : Platform → String → List AuditEventRow → Option ℕ
unfolding check_rows ordered
verify_chain p genesis rows = check_rows p genesis (ordered rows)
