-- ===== src/Tests/Api.antt =====
-- The routes and schemas at small tables: the user u-1 has a tax object with one return, the user u-2 another.
use tea_tax_product.Prelude.{
  ◌≡◌, refl, ◌⊎◌, ◌+◌, String, true, false, none, some, List, [], ◌∷◌, all, arith,
}
use tea_tax_product.Prelude.Enum.{string_eq, includes}
use tea_tax_product.Prelude.Number.{whole}
use tea_tax_product.Js.{Value, num, str, obj, Fields, end, field, get_field, property}
use tea_tax_product.TaxSituation.Values.{tax_situation_fields}
use tea_tax_product.Tests.Samples.{employee}
use tea_tax_product.Schema.{conforms}
use tea_tax_product.Schema.Bodies.{tax_situation_schema}
use tea_tax_product.Schema.Situations.{tax_situation_schema-conforms}
use tea_tax_product.Api.{
  Entity, Request, Surroundings, Outcome, Db, Effect, nothing, inserted, insert_status, row,
  replies, problem, commit, select_row,
}
use tea_tax_product.Api.Validation.{
  get_compiled_validator, after_uses, compilations, get_compiled_validator_lem,
}
use tea_tax_product.Api.TaxObjects.{create_tax_object, get_tax_object, new_object, owns}
use tea_tax_product.Api.NewReturn.{new_return, body_with_id}
use tea_tax_product.Api.TaxReturns.{create_tax_return, get_tax_return, merged_return}
use tea_tax_product.Api.Dispatch.{dispatch, serve}
use tea_tax_product.Api.Steps.{Lawful}
use tea_tax_product.Api.LawfulDispatch.{dispatch-Lawful}
use tea_tax_product.Api.Isolation.{serve-other_object, serve-other_return}
use tea_tax_product.Api.Failures.{Orphan, dispatch-failure}
use tea_tax_product.Api.Stored.{stored}
use tea_tax_product.Api.Reach.{Standard, empty, request, Reachable-stored}
use tea_tax_product.Api.RoundTrip.{create_tax_object-get, create_tax_return-get}
use tea_tax_product.Api.Refused.{serve-forged, create_tax_return-unknown}

-- A validator that answers as the standard says, and fixed identifiers.
abbrev server : Surroundings
server = record {
  csrf_disabled = false;
  accepts = conforms;
  errors = λ s v. [];
  number_text = λ n. "2024";
  trim = λ s. s;
  describe = λ s. none;
  first_uuid = "id-9";
  second_uuid = "id-10";
  now = 50;
}

server-Standard : Standard server
server-Standard s v = refl

abbrev own_object : Entity
own_object = record {
  id = "o-1";
  type = "tax_object";
  properties =
      field "object_type" (str "individual")
        (field "filing_year" (num (whole 2024)) (field "created_by_user_id" (str "u-1") end));
  version = 1;
  created_at = 10;
  updated_at = 10;
}

abbrev other_object : Entity
other_object = record {
  id = "o-2";
  type = "tax_object";
  properties = field "object_type" (str "business") (field "created_by_user_id" (str "u-2") end);
  version = 1;
  created_at = 20;
  updated_at = 20;
}

abbrev other_return : Entity
other_return = record {
  id = "r-2";
  type = "tax_return";
  properties = field "tax_object_id" (str "o-2") (field "filing_status" (str "single") end);
  version = 1;
  created_at = 30;
  updated_at = 30;
}

-- The row of the user, to which the relation of a new tax object refers.
abbrev user_row : Entity
user_row = record {
  id = "u-1";
  type = "user";
  properties = end;
  version = 1;
  created_at = 5;
  updated_at = 5;
}

abbrev tables : Db
tables = record {
  entities = user_row ∷ own_object ∷ other_object ∷ other_return ∷ [];
  relations = [];
}

abbrev object_body : Fields
object_body =
    field "objectType" (str "individual")
      (field "filingYear" (num (whole 2024)) (field "label" (str "Mine") end))

abbrev return_body : Fields
return_body = field "filingYear" (num (whole 2024)) (field "filingStatus" (str "single") end)

-- A request of u-1 with matching CSRF tokens.
abbrev asks : String → List String → Fields → Request
asks method path body = record {
  method = method;
  path = path;
  user = some "u-1";
  csrf_cookie = some "t";
  csrf_header = some "t";
  body = some (obj body);
}

abbrev post_object : Request
post_object = asks "POST" ("" ∷ "api" ∷ "tax-objects" ∷ []) object_body

abbrev post_return : Fields → Request
post_return body = asks "POST" ("" ∷ "api" ∷ "tax-objects" ∷ "o-1" ∷ "returns" ∷ []) body

abbrev patch_other : Request
patch_other = asks "PATCH" ("" ∷ "api" ∷ "tax-objects" ∷ "o-2" ∷ []) object_body

abbrev patch_other_return : Request
patch_other_return =
    asks "PATCH" ("" ∷ "api" ∷ "tax-objects" ∷ "o-2" ∷ "returns" ∷ "r-2" ∷ []) return_body

tax_situation_schema-conforms_example :
    conforms tax_situation_schema (obj (tax_situation_fields employee)) ≡ true
unfolding all
tax_situation_schema-conforms_example = tax_situation_schema-conforms employee

dispatch-Lawful_example :
    Lawful server post_object tables (create_tax_object server "u-1" post_object tables)
unfolding dispatch tea_tax_product.Api.TierEvaluate.handle_tier_evaluate_request
    tea_tax_product.Api.TaxReturns.handle_tax_returns_request
    tea_tax_product.Api.TaxObjects.handle_tax_objects_request
dispatch-Lawful_example = dispatch-Lawful server post_object tables _ refl

dispatch-failure_example :
    (((replies 404 (problem "Not found")).effect ≡ nothing)
      × ((replies 404 (problem "Not found")).broadcast ≡ []))
    ⊎ Orphan tables (replies 404 (problem "Not found"))
unfolding dispatch tea_tax_product.Api.TierEvaluate.handle_tier_evaluate_request
    tea_tax_product.Api.TaxReturns.handle_tax_returns_request
    tea_tax_product.Api.TaxObjects.handle_tax_objects_request
    tea_tax_product.Api.TaxObjects.patch_tax_object tea_tax_product.Js.strict_eq
dispatch-failure_example =
    dispatch-failure server patch_other tables (replies 404 (problem "Not found")) refl
      (omega arith)

-- The user was deleted, and the session is still good: the tax object is stored without an owner's relation.
deleted_user :
    (dispatch server post_object (record { entities = []; relations = [] }))
    ≡ some (
        inserted
          (new_object server "u-1" (obj object_body))
          (owns server "u-1")
          "tax_object.created"
          (record { entities = []; relations = [] }))
unfolding dispatch tea_tax_product.Api.TierEvaluate.handle_tier_evaluate_request
    tea_tax_product.Api.TaxReturns.handle_tax_returns_request
    tea_tax_product.Api.TaxObjects.handle_tax_objects_request inserted create_tax_object conforms
    tea_tax_product.Schema.Bodies.create_tax_object_schema tea_tax_product.Schema.closed
    tea_tax_product.Schema.listed tea_tax_product.Schema.one_word
    tea_tax_product.Schema.Enums.tax_object_type_enum tea_tax_product.Schema.year
    tea_tax_product.Schema.of_type
deleted_user = refl

deleted_user-status :
    insert_status
      (new_object server "u-1" (obj object_body))
      (owns server "u-1")
      (record { entities = []; relations = [] })
    ≡ 500
unfolding insert_status new_object owns
deleted_user-status = refl

serve-other_object_example :
    select_row "o-2" "tax_object" (serve server patch_other tables).entities ≡ some other_object
unfolding select_row tea_tax_product.Api.text_is tea_tax_product.Js.strict_eq
serve-other_object_example =
    serve-other_object server tables "o-2" other_object patch_other "u-1" refl refl refl refl

serve-other_return_example :
    select_row "r-2" "tax_return" (serve server patch_other_return tables).entities
    ≡ some other_return
unfolding select_row tea_tax_product.Api.text_is tea_tax_product.Js.strict_eq
    tea_tax_product.Api.owned_object
serve-other_return_example =
    serve-other_return server tables "r-2" other_return patch_other_return "u-1" "o-2" refl refl
      refl refl refl

abbrev one_object : Db
one_object = serve server post_object (record { entities = []; relations = [] })

Reachable-stored_example : all stored one_object.entities ≡ true
Reachable-stored_example =
    Reachable-stored
      (request server post_object (record { entities = []; relations = [] }) server-Standard empty)

create_tax_object-get_example :
    get_tax_object "u-1" "id-9"
      (commit (create_tax_object server "u-1" post_object tables).effect tables)
    ≡ replies 200 (row (new_object server "u-1" (obj object_body)))
unfolding tea_tax_product.Api.Csrf.verify_csrf conforms
    tea_tax_product.Schema.Bodies.create_tax_object_schema tea_tax_product.Schema.closed
    tea_tax_product.Schema.listed tea_tax_product.Schema.one_word
    tea_tax_product.Schema.Enums.tax_object_type_enum tea_tax_product.Schema.year
    tea_tax_product.Schema.of_type
create_tax_object-get_example =
    create_tax_object-get server post_object tables "u-1" (obj object_body) refl refl refl

create_tax_return-get_example :
    get_tax_return "u-1" "o-1" "id-9"
      (commit (create_tax_return server "u-1" "o-1" (post_return return_body) tables).effect tables)
    ≡ replies 200 (row (new_return server "o-1" (body_with_id server (obj return_body) "o-1")))
unfolding tea_tax_product.Api.Csrf.verify_csrf tea_tax_product.Api.owned_object
    tea_tax_product.Js.strict_eq conforms tea_tax_product.Schema.Bodies.create_tax_return_schema
    tea_tax_product.Schema.closed body_with_id tea_tax_product.Schema.listed
    tea_tax_product.Schema.year tea_tax_product.Schema.one_word
    tea_tax_product.Schema.Enums.filing_status_enum tea_tax_product.Schema.non_empty
    tea_tax_product.Api.NewReturn.violates_unique new_return
create_tax_return-get_example =
    create_tax_return-get server (post_return return_body) tables "u-1" "o-1" (obj return_body)
      own_object refl refl refl refl refl refl

abbrev forged : Request
forged = record {
  method = "POST";
  path = "" ∷ "api" ∷ "tax-objects" ∷ [];
  user = some "u-1";
  csrf_cookie = some "t";
  csrf_header = none;
  body = some (obj object_body);
}

serve-forged_example : serve server forged tables ≡ tables
unfolding includes tea_tax_product.Api.Csrf.safe_methods tea_tax_product.Api.Csrf.tokens_differ
serve-forged_example = serve-forged server forged tables refl refl refl

abbrev with_jurisdiction : Fields
with_jurisdiction = field "jurisdiction" (str "CA") return_body

create_tax_return-unknown_example :
    (create_tax_return server "u-1" "o-1" (post_return with_jurisdiction) tables).reply.status ≡ 400
unfolding tea_tax_product.Api.Csrf.verify_csrf tea_tax_product.Api.owned_object
    tea_tax_product.Js.strict_eq
create_tax_return-unknown_example =
    create_tax_return-unknown server (post_return with_jurisdiction) tables "u-1" "o-1" own_object
      with_jurisdiction "jurisdiction" (str "CA") server-Standard refl refl refl refl refl

get_compiled_validator_lem_example :
    ((get_compiled_validator (λ n. n + 1) 3 (after_uses (λ n. n + 1) (3 ∷ 4 ∷ []))).0 ≡ 4)
    × (compilations
          (get_compiled_validator (λ n. n + 1) 3 (after_uses (λ n. n + 1) (3 ∷ 4 ∷ []))).1.compiled
          3
        ≡ 1)
get_compiled_validator_lem_example = get_compiled_validator_lem (λ n. n + 1) (3 ∷ 4 ∷ []) 3
