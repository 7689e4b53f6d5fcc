-- ===== src/Api/LawfulDispatch.antt =====
-- Every request under /api/tax-objects is answered within the specification.
use tea_tax_product.Prelude.{
  not, ◌≡◌, refl, String, Option, none, some, if◌then◌else◌, ◌&&◌, Bool-cases, Option-cases, inl,
  inr,
}
use tea_tax_product.Prelude.Enum.{◌===◌, string_eq}
use tea_tax_product.Js.{Value, null, bool, num, str, arr, obj, property}
use tea_tax_product.Api.{Request, Surroundings, Outcome, Db, replies, problem}
use tea_tax_product.Api.TaxObjects.{
  handle_tax_objects_request, create_tax_object, list_tax_objects, get_tax_object, patch_tax_object,
}
use tea_tax_product.Api.Paths.{
  under_tax_objects, is_collection, single_object, match_list_create, match_verb, match_single,
}
use tea_tax_product.Api.TaxReturns.{
  handle_tax_returns_request, handle_list_create, handle_single, handle_validate,
}
use tea_tax_product.Api.TierEvaluate.{handle_tier_evaluate_request}
use tea_tax_product.Api.ParseDescription.{
  parse_field, parse_text, parse_body, within_returns, ends_in_parse,
  handle_parse_description_request,
}
use tea_tax_product.Api.Dispatch.{dispatch, parse_request}
use tea_tax_product.Api.Steps.{Lawful, replies-Lawful}
use tea_tax_product.Api.Lawful.{
  Answers, some-Answers, none-Answers, first-Answers, if-Answers, authenticated-Answers,
  matched-Answers, create_tax_object-Lawful, list_tax_objects-Lawful, get_tax_object-Lawful,
  patch_tax_object-Lawful, create_tax_return-Lawful, patch_tax_return-Lawful,
  validate_tax_return-Lawful, evaluate_tax_return-Lawful, list_tax_returns-Lawful,
  get_tax_return-Lawful,
}

module _ (around : Surroundings) (req : Request) (db : Db) where
  handle_list_create-Answers :
      (user id : String)
      → req.user ≡ some user
      → Answers around req db (handle_list_create around user id req db)
  unfolding handle_list_create
  handle_list_create-Answers user id h =
      if-Answers (req.method === "POST")
        (some-Answers (create_tax_return-Lawful around req db user h id))
        (if-Answers (req.method === "GET")
          (some-Answers (list_tax_returns-Lawful around req db user h id)) none-Answers)

  handle_single-Answers :
      (user id return_id : String)
      → req.user ≡ some user
      → Answers around req db (handle_single around user id return_id req db)
  unfolding handle_single
  handle_single-Answers user id return_id h =
      if-Answers (req.method === "GET")
        (some-Answers (get_tax_return-Lawful around req db user h id return_id))
        (if-Answers (req.method === "PATCH")
          (some-Answers (patch_tax_return-Lawful around req db user h id return_id)) none-Answers)

  handle_validate-Answers :
      (user id return_id : String)
      → req.user ≡ some user
      → Answers around req db (handle_validate user id return_id req db)
  unfolding handle_validate
  handle_validate-Answers user id return_id h =
      if-Answers (req.method === "POST")
        (some-Answers (validate_tax_return-Lawful around req db user h id return_id)) none-Answers

  handle_tax_returns_request-Answers :
      Answers around req db (handle_tax_returns_request around req db)
  unfolding handle_tax_returns_request
  handle_tax_returns_request-Answers =
      matched-Answers (match_list_create req.path)
        (λ id. authenticated-Answers req.user (λ u e. handle_list_create-Answers u id e))
        (matched-Answers (match_verb "validate" req.path)
          (λ m. authenticated-Answers req.user (λ u e. handle_validate-Answers u m.0 m.1 e))
          (matched-Answers (match_single req.path)
            (λ m. authenticated-Answers req.user (λ u e. handle_single-Answers u m.0 m.1 e))
            none-Answers))

  handle_tier_evaluate_request-Answers : Answers around req db (handle_tier_evaluate_request req db)
  unfolding handle_tier_evaluate_request
  handle_tier_evaluate_request-Answers =
      matched-Answers (match_verb "tier-evaluate" req.path)
        (λ m.
          if-Answers (req.method === "POST")
            (authenticated-Answers req.user
              (λ u e. some-Answers (evaluate_tax_return-Lawful around req db u e m.0 m.1)))
            none-Answers)
        none-Answers

  parse_field-Lawful : (o : Option Value) → Lawful around req db (parse_field around o)
  unfolding parse_field parse_text
  parse_field-Lawful none = replies-Lawful around req db 400 _
  parse_field-Lawful (some null) = replies-Lawful around req db 400 _
  parse_field-Lawful (some (bool b)) = replies-Lawful around req db 400 _
  parse_field-Lawful (some (num n)) = replies-Lawful around req db 400 _
  parse_field-Lawful (some (arr vs)) = replies-Lawful around req db 400 _
  parse_field-Lawful (some (obj fs)) = replies-Lawful around req db 400 _
  parse_field-Lawful (some (str s)) = elim (Bool-cases (around.trim s === "")) [
    | inl e ↦ rw (e, parse_text) (replies-Lawful around req db 400 _)
    | inr e ↦
        rw (e, parse_text)
          (elim (Option-cases (around.describe (around.trim s))) [
            | inl n ↦ rw n (replies-Lawful around req db 500 _)
            | inr (v, n) ↦ rw n (replies-Lawful around req db 200 _)
          ])
  ]

  parse_body-Lawful : (o : Option Value) → Lawful around req db (parse_body around o)
  unfolding parse_body
  parse_body-Lawful none = replies-Lawful around req db 400 _
  parse_body-Lawful (some v) = parse_field-Lawful (property v "description")

  parse_request-Answers : Answers around req db (parse_request around req)
  unfolding parse_request handle_parse_description_request
  parse_request-Answers =
      if-Answers (within_returns req.path)
        (if-Answers (ends_in_parse req.path && req.method === "POST")
          (authenticated-Answers req.user (λ u e. some-Answers (parse_body-Lawful req.body)))
          none-Answers)
        none-Answers

  handle_tax_objects_request-Answers :
      Answers around req db (handle_tax_objects_request around req db)
  unfolding handle_tax_objects_request
  handle_tax_objects_request-Answers =
      if-Answers (not (under_tax_objects req.path)) none-Answers (user-Answers req.user refl)
    where
      user-Answers :
          (user : Option String)
          → req.user ≡ user
          → Answers around req db (elim user [
            | none ↦ some (replies 401 (problem "Unauthorized"))
            | some u ↦
                if req.method === "POST" && is_collection req.path
                then some (create_tax_object around u req db)
                else if req.method === "GET" && is_collection req.path
                then some (list_tax_objects u db)
                else elim (single_object req.path) [
                  | none ↦ none
                  | some id ↦
                      if req.method === "GET"
                      then some (get_tax_object u id db)
                      else if req.method === "PATCH"
                      then some (patch_tax_object around u id req db)
                      else none
                ]
          ])
      user-Answers none e = some-Answers (replies-Lawful around req db 401 _)
      user-Answers (some u) e =
          if-Answers (req.method === "POST" && is_collection req.path)
            (some-Answers (create_tax_object-Lawful around req db u e))
            (if-Answers (req.method === "GET" && is_collection req.path)
              (some-Answers (list_tax_objects-Lawful around req db u e))
              (matched-Answers (single_object req.path)
                (λ id.
                  if-Answers (req.method === "GET")
                    (some-Answers (get_tax_object-Lawful around req db u e id))
                    (if-Answers (req.method === "PATCH")
                      (some-Answers (patch_tax_object-Lawful around req db u e id)) none-Answers))
                none-Answers))

  dispatch-Answers : Answers around req db (dispatch around req db)
  unfolding dispatch
  dispatch-Answers =
      if-Answers (under_tax_objects req.path)
        (first-Answers _ handle_tier_evaluate_request-Answers (
          first-Answers _ parse_request-Answers (
            first-Answers _ handle_tax_returns_request-Answers handle_tax_objects_request-Answers)))
        none-Answers

  -- Whatever answer a request under /api/tax-objects gets, either nothing is written and nothing broadcast, or
  -- a user is authenticated, the CSRF check has passed, and the write is one of four: a new tax object from an
  -- accepted body, a change of an own tax object, a new tax return under an own tax object that the unique
  -- index lets in, or a change of a tax return under an own tax object.
  pub dispatch-Lawful : (o : Outcome) → dispatch around req db ≡ some o → Lawful around req db o
  dispatch-Lawful o e = dispatch-Answers.lawful o e
