-- ===== src/Api/TaxObjects.antt =====
-- apps/server/src/api/tax-objects.ts: creating, listing, reading and updating the tax objects of a user.
use Prim.Native.String.{◌++◌ as str_append}
use tea_tax_product.Prelude.{String, not, ◌&&◌, Option, none, some, [], ◌∷◌, filter, if◌then◌else◌}
use tea_tax_product.Prelude.Enum.{◌===◌, string_eq}
use tea_tax_product.Js.{Value, null, num, str, Fields, end, field, property}
use tea_tax_product.TaxSituation.Values.{optional}
use tea_tax_product.Schema.Bodies.{create_tax_object_schema, patch_tax_object_schema}
use tea_tax_product.Api.{
  Entity, Relation, Request, Surroundings, Outcome, Db, replies, inserted, update, problem, row,
  rows, text_is, recent_first, set_given, with_properties,
}
use tea_tax_product.Api.Paths.{under_tax_objects, is_collection, single_object}
use tea_tax_product.Api.Guards.{checked_body, guarded, with_owned}

-- A template's text of a value that the schema lets through: a text or a number.
unfoldable pub template_text : Surroundings → Option Value → String
template_text around (some (str s)) = s
template_text around (some (num n)) = around.number_text n
template_text around _ = "undefined"

-- a ?? b
unfoldable pub coalesce : Option Value → Value → Value
coalesce none b = b
coalesce (some null) b = b
coalesce (some v) b = v

-- label ?? `${objectType} ${filingYear}`
unfoldable pub display_name : Surroundings → Value → Value
unfolding template_text property coalesce
display_name around body = coalesce (property body "label") (
    str (
      str_append (template_text around (property body "objectType"))
        (str_append " " (template_text around (property body "filingYear")))))

-- The row that POST inserts.
unfoldable pub new_object : Surroundings → String → Value → Entity
unfolding optional property
new_object around user body = record {
  id = around.first_uuid;
  type = "tax_object";
  properties =
      optional "object_type" (λ v. v) (property body "objectType")
        (optional "filing_year" (λ v. v) (property body "filingYear")
          (field "display_name" (display_name around body)
            (field "created_by_user_id" (str user) (field "status" (str "active") end))));
  version = 1;
  created_at = around.now;
  updated_at = around.now;
}

unfoldable pub owns : Surroundings → String → Relation
owns around user = record {
  id = around.second_uuid;
  source_id = user;
  target_id = around.first_uuid;
  type = "owns";
}

unfoldable pub create_tax_object : Surroundings → String → Request → Db → Outcome
unfolding checked_body guarded inserted
create_tax_object around user req db = guarded around req (
    checked_body around create_tax_object_schema req.body
      (λ body. inserted (new_object around user body) (owns around user) "tax_object.created" db))

unfoldable pub list_tax_objects : String → Db → Outcome
unfolding filter recent_first
list_tax_objects user db = replies 200 (
    rows (
      recent_first (
        filter (λ e. e.type === "tax_object" && text_is e.properties "created_by_user_id" user)
          db.entities)))

unfoldable pub get_tax_object : String → String → Db → Outcome
unfolding with_owned
get_tax_object user id db = with_owned user id db (λ e. replies 200 (row e))

-- The properties after PATCH: those that the body gives replace the stored ones.
unfoldable pub merged_object : Fields → Value → Fields
unfolding set_given property
merged_object fs body =
    set_given
      (set_given (set_given fs "object_type" (property body "objectType")) "filing_year"
        (property body "filingYear"))
      "display_name" (property body "label")

unfoldable pub patch_tax_object : Surroundings → String → String → Request → Db → Outcome
unfolding checked_body guarded with_owned merged_object
patch_tax_object around user id req db = guarded around req (
    with_owned user id db (λ e. checked_body around patch_tax_object_schema req.body (λ body.
      let fs = merged_object e.properties body in
      record {
        reply = record { status = 200; body = row (with_properties e fs) };
        effect = update id "tax_object" fs around.now;
        broadcast = "tax_object.updated" ∷ [];
      })))

-- `none` leaves the request to other handlers.
unfoldable pub handle_tax_objects_request : Surroundings → Request → Db → Option Outcome
unfolding under_tax_objects is_collection single_object
handle_tax_objects_request around req db =
    if not (under_tax_objects req.path) then none else elim req.user [
      | none ↦ some (replies 401 (problem "Unauthorized"))
      | some user ↦
          if req.method === "POST" && is_collection req.path
          then some (create_tax_object around user req db)
          else if req.method === "GET" && is_collection req.path
          then some (list_tax_objects user db)
          else elim (single_object req.path) [
            | none ↦ none
            | some id ↦
                if req.method === "GET"
                then some (get_tax_object user id db)
                else if req.method === "PATCH"
                then some (patch_tax_object around user id req db)
                else none
          ]
    ]
