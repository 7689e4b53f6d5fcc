-- ===== src/Api/TaxReturns.antt =====
-- apps/server/src/api/tax-returns.ts: the handlers of the tax returns under a tax object.
use tea_tax_product.Prelude.{String, ◌&&◌, Option, none, some, [], ◌∷◌, filter, if◌then◌else◌}
use tea_tax_product.Prelude.Enum.{◌===◌, string_eq}
use tea_tax_product.Js.{Value, null, Fields, get_field, property, strict_eq}
use tea_tax_product.Schema.Bodies.{create_tax_return_schema, patch_tax_return_schema}
use tea_tax_product.Api.{
  Entity, Request, Surroundings, Outcome, Db, replies, update, problem, detailed, row, rows,
  validated, text_is, recent_first, set_given, with_properties, return_of,
}
use tea_tax_product.Api.Guards.{checked_body, guarded, with_owned}
use tea_tax_product.Api.Paths.{match_list_create, match_verb, match_single}
use tea_tax_product.Api.NewReturn.{body_with_id, insert_return}

unfoldable pub parsed_with_id : Surroundings → Option Value → String → Option Value
unfolding body_with_id
parsed_with_id around none object_id = none
parsed_with_id around (some v) object_id = some (body_with_id around v object_id)

unfoldable pub create_tax_return : Surroundings → String → String → Request → Db → Outcome
unfolding checked_body guarded with_owned parsed_with_id insert_return
create_tax_return around user object_id req db = guarded around req (
    with_owned user object_id db (λ object.
      checked_body around create_tax_return_schema (parsed_with_id around req.body object_id)
        (λ body. insert_return around object_id body db)))

unfoldable pub list_tax_returns : String → String → Db → Outcome
unfolding with_owned filter recent_first
list_tax_returns user object_id db = with_owned user object_id db (λ object. replies 200 (
    rows (
      recent_first (
        filter (λ e. e.type === "tax_return" && text_is e.properties "tax_object_id" object_id)
          db.entities))))

-- The tax return under the tax object, or 404.
unfoldable pub with_return : String → String → Db → (Entity → Outcome) → Outcome
unfolding return_of
with_return object_id id db next = elim (return_of object_id id db.entities) [
  | none ↦ replies 404 (problem "Not found")
  | some e ↦ next e
]

unfoldable pub get_tax_return : String → String → String → Db → Outcome
unfolding with_owned with_return
get_tax_return user object_id id db =
    with_owned user object_id db (λ object. with_return object_id id db (λ e. replies 200 (row e)))

unfoldable pub merged_return : Fields → Value → Fields
unfolding set_given property
merged_return fs body =
    set_given (set_given fs "filing_status" (property body "filingStatus")) "situation_data"
      (property body "situationData")

unfoldable pub patch_tax_return : Surroundings → String → String → String → Request → Db → Outcome
unfolding checked_body guarded with_owned with_return merged_return
patch_tax_return around user object_id id req db = guarded around req (
    with_owned user object_id db (λ object. with_return object_id id db (λ e.
      checked_body around patch_tax_return_schema req.body (λ body.
        let fs = merged_return e.properties body in
        record {
          reply = record { status = 200; body = row (with_properties e fs) };
          effect = update id "tax_return" fs around.now;
          broadcast = "tax_return.updated" ∷ [];
        }))))

-- situationData === undefined || situationData === null
unfoldable pub situation_data : Entity → Option Value
unfolding get_field
situation_data e = elim (get_field e.properties "situation_data") [
  | none ↦ none
  | some v ↦ if strict_eq v null then none else some v
]

unfoldable pub validate_tax_return : String → String → String → Db → Outcome
unfolding with_owned with_return situation_data
validate_tax_return user object_id id db = with_owned user object_id db (λ object.
    with_return object_id id db (λ e. elim (situation_data e) [
      | none ↦
          replies 422
            (detailed "Unprocessable Entity" "No situation_data found on this tax return.")
      | some v ↦ replies 200 (validated v)
    ]))

unfoldable pub handle_list_create : Surroundings → String → String → Request → Db → Option Outcome
unfolding create_tax_return list_tax_returns
handle_list_create around user id req db =
    if req.method === "POST"
    then some (create_tax_return around user id req db)
    else if req.method === "GET"
    then some (list_tax_returns user id db)
    else none

unfoldable pub handle_single :
    Surroundings → String → String → String → Request → Db → Option Outcome
unfolding get_tax_return patch_tax_return
handle_single around user id return_id req db =
    if req.method === "GET"
    then some (get_tax_return user id return_id db)
    else if req.method === "PATCH"
    then some (patch_tax_return around user id return_id req db)
    else none

unfoldable pub handle_validate : String → String → String → Request → Db → Option Outcome
unfolding validate_tax_return
handle_validate user id return_id req db =
    if req.method === "POST" then some (validate_tax_return user id return_id db) else none

-- Authentication comes before the route's handler.
unfoldable pub authenticated : Option String → (String → Option Outcome) → Option Outcome
unfolding replies
authenticated none next = some (replies 401 (problem "Unauthorized"))
authenticated (some user) next = next user

unfoldable pub handle_tax_returns_request : Surroundings → Request → Db → Option Outcome
unfolding match_list_create match_verb match_single authenticated
handle_tax_returns_request around req db = elim (match_list_create req.path) [
  | some id ↦ authenticated req.user (λ user. handle_list_create around user id req db)
  | none ↦ elim (match_verb "validate" req.path) [
    | some m ↦ authenticated req.user (λ user. handle_validate user m.0 m.1 req db)
    | none ↦ elim (match_single req.path) [
      | some m ↦ authenticated req.user (λ user. handle_single around user m.0 m.1 req db)
      | none ↦ none
    ]
  ]
]
