-- ===== src/Api.antt =====
-- The routes of apps/server/src/api that keep tax objects and tax returns: requests, replies, and the tables
-- `entities` and `relations` of packages/db/schema.sql that the handlers read and write. The handlers run their
-- statements one after another, without a transaction; the unique index and the foreign keys can refuse one.
pub mod Csrf
pub mod Guards
pub mod Paths
pub mod NewReturn
pub mod Validation
pub mod TaxObjects
pub mod TaxReturns
pub mod TierEvaluate
pub mod ParseDescription
pub mod Dispatch
pub mod Steps
pub mod Rows
pub mod Lawful
pub mod LawfulDispatch
pub mod FieldLaws
pub mod Patches
pub mod Failures
pub mod Isolation
pub mod Stored
pub mod GuardLaws
pub mod RoundTrip
pub mod Refused
pub mod Reach
use tea_tax_product.Prelude.{
  ℕ, suc, leb, String, Bool, true, false, not, ◌&&◌, Option, none, some, List, [], ◌∷◌, filter, any,
  if◌then◌else◌,
}
use tea_tax_product.Prelude.Enum.{◌===◌, string_eq}
use tea_tax_product.Prelude.Number.{Number}
use tea_tax_product.Js.{Value, str, Fields, end, field, get_field, strict_eq}
use tea_tax_product.Schema.{Schema}

-- A row of `entities`. Times are counted in the ticks of the database's clock.
pub record Entity : Type 0 where
  pub id : String
  pub type : String
  pub properties : Fields
  pub version : ℕ
  pub created_at : ℕ
  pub updated_at : ℕ

pub record Relation : Type 0 where
  pub id : String
  pub source_id : String
  pub target_id : String
  pub type : String

pub record Db : Type 0 where
  pub entities : List Entity
  pub relations : List Relation

-- What a handler reads of a request: the parts of the path between its slashes, the user that
-- getAuthenticatedUser finds, the CSRF token of the cookie and of the header, and the parsed body, `none` if
-- req.json() throws.
pub record Request : Type 0 where
  pub method : String
  pub path : List String
  pub user : Option String
  pub csrf_cookie : Option String
  pub csrf_header : Option String
  pub body : Option Value

-- What the handlers use of their surroundings: the environment variable CSRF_DISABLED, the validator of the
-- package ajv, the runtime's text of a number and its String.prototype.trim, the call of the claude CLI, two calls of crypto.randomUUID(), and NOW().
pub record Surroundings : Type 0 where
  pub csrf_disabled : Bool
  pub accepts : Schema → Value → Bool
  pub errors : Schema → Value → List (String × String)
  pub number_text : Number → String
  pub trim : String → String
  -- parseDescriptionWithClaude and the reply built from its fields, `none` when it throws
  pub describe : String → Option Value
  pub first_uuid : String
  pub second_uuid : String
  pub now : ℕ

pub data Body : Type 0 where
  -- { error }, { error, details }
  problem : String → Body
  detailed : String → String → Body
  invalid : List (String × String) → Body
  -- { id, type, properties }
  created : (id type : String) → Fields → Body
  row : Entity → Body
  rows : List Entity → Body
  -- the result of the validation engine, or of the tier engine, on a stored situation
  validated placed : Value → Body
  not_evaluable : String → Body
  -- the fields that a description was parsed into, or an error without any
  described : Value → Body
  not_described : String → Body
  -- an exception that no handler catches
  unhandled : Body

pub record Reply : Type 0 where
  pub status : ℕ
  pub body : Body

-- The statements that write.
pub data Effect : Type 0 where
  nothing : Effect
  insert : Entity → Relation → Effect
  update : (id type : String) → Fields → (now : ℕ) → Effect

pub record Outcome : Type 0 where
  pub reply : Reply
  pub effect : Effect
  -- broadcast(event, entity)
  pub broadcast : List String

unfoldable pub replies : ℕ → Body → Outcome
replies n b = record { reply = record { status = n; body = b }; effect = nothing; broadcast = [] }

-- WHERE id = … AND type = …
unfoldable pub is_row : String → String → Entity → Bool
is_row id type e = e.id === id && e.type === type

unfoldable pub select_row : String → String → List Entity → Option Entity
unfolding is_row
select_row id type [] = none
select_row id type (e ∷ es) =
    let rest = select_row id type es in if is_row id type e then some e else rest

-- `properties->>'key' = text`: under the keys that the handlers compare stand texts.
unfoldable pub text_is : Fields → String → String → Bool
unfolding get_field
text_is fs key text = elim (get_field fs key) [ none ↦ false | some v ↦ strict_eq v (str text) ]

-- The row of a tax object that the user created; `none` stands for a reply of 404.
unfoldable pub owned_object : String → String → List Entity → Option Entity
unfolding select_row text_is
owned_object user id es = elim (select_row id "tax_object" es) [
  | none ↦ none
  | some e ↦ if text_is e.properties "created_by_user_id" user then some e else none
]

-- The row of a tax return under a tax object.
unfoldable pub return_of : String → String → List Entity → Option Entity
unfolding select_row text_is
return_of object_id id es = elim (select_row id "tax_return" es) [
  | none ↦ none
  | some e ↦ if text_is e.properties "tax_object_id" object_id then some e else none
]

-- ORDER BY created_at DESC
unfoldable pub insert_recent : Entity → List Entity → List Entity
insert_recent e [] = e ∷ []
insert_recent e (x ∷ xs) =
    let rest = insert_recent e xs in if leb x.created_at e.created_at then e ∷ x ∷ xs else x ∷ rest

unfoldable pub recent_first : List Entity → List Entity
unfolding insert_recent
recent_first [] = []
recent_first (e ∷ es) = insert_recent e (recent_first es)

-- { ...fs, [key]: value }
unfoldable pub set_field : Fields → String → Value → Fields
set_field end key value = field key value end
set_field (field k v rest) key value =
    let later = set_field rest key value in
    if k === key then field k value rest else field k v later

-- { ...fs, ...(value !== undefined ? { [key]: value } : {}) }
unfoldable pub set_given : Fields → String → Option Value → Fields
unfolding set_field
set_given fs key none = fs
set_given fs key (some value) = set_field fs key value

-- { ...entity, properties }
unfoldable pub with_properties : Entity → Fields → Entity
with_properties e fs = record {
  id = e.id;
  type = e.type;
  properties = fs;
  version = e.version;
  created_at = e.created_at;
  updated_at = e.updated_at;
}

-- SET properties = …, updated_at = NOW(), version = version + 1
unfoldable pub updated : Fields → ℕ → Entity → Entity
updated fs now e = record {
  id = e.id;
  type = e.type;
  properties = fs;
  version = suc e.version;
  created_at = e.created_at;
  updated_at = now;
}

unfoldable pub update_entities : String → String → Fields → ℕ → List Entity → List Entity
unfolding is_row updated
update_entities id type fs now [] = []
update_entities id type fs now (e ∷ es) =
    (if is_row id type e then updated fs now e else e) ∷ update_entities id type fs now es

-- The foreign keys of `relations`: both ends are rows of `entities`.
unfoldable pub references : Relation → List Entity → Bool
unfolding any
references r es = any (λ e. e.id === r.source_id) es && any (λ e. e.id === r.target_id) es

-- The two INSERTs are two statements without a transaction: the entity stays when the relation is refused.
unfoldable pub commit : Effect → Db → Db
unfolding update_entities references
commit nothing db = db
commit (insert e r) db = record {
  entities = e ∷ db.entities;
  relations = if references r (e ∷ db.entities) then r ∷ db.relations else db.relations;
}
commit (update id type fs now) db = record {
  entities = update_entities id type fs now db.entities;
  relations = db.relations;
}

-- INSERT of an entity and then of its relation: 201, or an exception when the relation is refused.
unfoldable pub insert_status : Entity → Relation → Db → ℕ
unfolding references
insert_status e r db = if references r (e ∷ db.entities) then 201 else 500

unfoldable pub inserted : Entity → Relation → String → Db → Outcome
unfolding insert_status references
inserted e r event db = record {
  reply = record {
    status = insert_status e r db;
    body = if references r (e ∷ db.entities) then created e.id e.type e.properties else unhandled;
  };
  effect = insert e r;
  broadcast = if references r (e ∷ db.entities) then event ∷ [] else [];
}
