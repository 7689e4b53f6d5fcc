-- ===== src/Api/Refused.antt =====
-- Requests that change nothing: forged ones, those without a user, and bodies with properties that no schema
-- knows.
use tea_tax_product.Prelude.{
  any, ◌≡◌, ◌≢◌, refl, sym, ap, String, true, false, Option, none, some, List, [], ◌∷◌, map, arith,
  ◌∙◌, Option-cases, Bool-cases, inl, inr,
}
use mathlib.Core.Bool.{true≢false}
use tea_tax_product.Prelude.Enum.{◌===◌, string_eq, includes, includes-cons}
use tea_tax_product.Js.{Value, Fields, obj, str, get_field}
use tea_tax_product.Schema.{Schema, conforms, allows, listed, no_other, closed, required}
use tea_tax_product.Schema.Bodies.{create_tax_return_schema}
use tea_tax_product.Schema.Readable.{conforms-property}
use tea_tax_product.Api.{
  Request, Surroundings, Outcome, Db, commit, set_field, Entity, owned_object,
}
use tea_tax_product.Api.Csrf.{verify_csrf, tokens_differ, safe_methods}
use tea_tax_product.Api.Dispatch.{dispatch, serve}
use tea_tax_product.Api.FieldLaws.{get_field-set_field_other}
use tea_tax_product.Api.GuardLaws.{guarded-passes, with_owned-some}
use tea_tax_product.Api.Steps.{Lawful, quiet, writes}
use tea_tax_product.Api.LawfulDispatch.{dispatch-Lawful}
use tea_tax_product.Api.NewReturn.{body_with_id}
use tea_tax_product.Api.Reach.{Standard}
use tea_tax_product.Api.Guards.{checked_body}
use tea_tax_product.Api.TaxReturns.{create_tax_return, parsed_with_id}

verify_csrf-differ :
    (req : Request)
    → includes safe_methods req.method ≡ false
    → tokens_differ req.csrf_cookie req.csrf_header ≡ true
    → verify_csrf false req ≢ none
unfolding verify_csrf
verify_csrf-differ req m t h = ground arith

Lawful-forged :
    {around : Surroundings} {req : Request} {db : Db} {o : Outcome}
    → Lawful around req db o
    → around.csrf_disabled ≡ false
    → includes safe_methods req.method ≡ false
    → tokens_differ req.csrf_cookie req.csrf_header ≡ true
    → commit o.effect db ≡ db
unfolding commit
Lawful-forged (quiet r) d m t = refl
Lawful-forged {req = req} (writes user o u c p q) d m t =
    absurd (verify_csrf-differ req m t (sym (ap (λ b. verify_csrf b req) d) ∙ c))

-- While the CSRF check is on, a request under /api/tax-objects by another method than GET, HEAD and OPTIONS whose
-- CSRF cookie and header are not there both, empty, or different, changes no table.
pub serve-forged :
    (around : Surroundings) (req : Request) (db : Db)
    → around.csrf_disabled ≡ false
    → includes safe_methods req.method ≡ false
    → tokens_differ req.csrf_cookie req.csrf_header ≡ true
    → serve around req db ≡ db
unfolding serve
serve-forged around req db d m t = elim (Option-cases (dispatch around req db)) [
  | inl e ↦ rw (e, serve) refl
  | inr p ↦ rw (p.1, serve) (Lawful-forged (dispatch-Lawful around req db p.0 p.1) d m t)
]

-- A key that is not named is not allowed.
allows-listed :
    (named : List (String × Schema)) (key : String) (v : Value)
    → includes (map (λ p. p.0) named) key ≡ false
    → allows (listed named no_other) key v ≡ false
unfolding listed conforms
allows-listed [] key v h = refl
allows-listed ((name, s) ∷ named) key v h = ground (
  arith,
  allows-listed named key v,
  string_eq.test_iff key name,
  string_eq.test_iff name key,
  includes-cons name (map (λ p. p.0) named) key,
)

-- The properties of the body of POST.
abbrev pub known_keys : List String
known_keys = "taxObjectId" ∷ "filingYear" ∷ "filingStatus" ∷ "situationData" ∷ []

first_differs : (key : String) → includes known_keys key ≡ false → ("taxObjectId" === key) ≡ false
unfolding includes any
first_differs key h = ground arith

conforms-unknown :
    (fs : Fields) (key : String) (v : Value)
    → get_field fs key ≡ some v
    → includes known_keys key ≡ false
    → conforms create_tax_return_schema (obj fs) ≡ false
unfolding create_tax_return_schema closed tea_tax_product.Js.property
conforms-unknown fs key v g h = elim (Bool-cases (conforms create_tax_return_schema (obj fs))) [
  | inl e ↦ absurd (
      true≢false (
        sym (conforms-property (required _) (listed _ no_other) (obj fs) key v e g)
        ∙ allows-listed _ key v h))
  | inr e ↦ e
]

checked_body-refuses :
    (around : Surroundings) (s : Schema) (body : Option Value) (v : Value) (next : Value → Outcome)
    → body ≡ some v
    → around.accepts s v ≡ false
    → (checked_body around s body next).reply.status ≡ 400
unfolding checked_body tea_tax_product.Api.replies
checked_body-refuses around s body v next b a = rw (b, checked_body) rw a refl

pub create_tax_return-unknown :
    (around : Surroundings) (req : Request) (db : Db) (user object_id : String) (object : Entity)
    (fs : Fields) (key : String) (v : Value)
    → Standard around
    → verify_csrf around.csrf_disabled req ≡ none
    → owned_object user object_id db.entities ≡ some object
    → req.body ≡ some (obj fs)
    → get_field fs key ≡ some v
    → includes known_keys key ≡ false
    → (create_tax_return around user object_id req db).reply.status ≡ 400
unfolding create_tax_return parsed_with_id body_with_id
create_tax_return-unknown around req db user object_id object fs key v std c o b g h =
    let body = obj (set_field fs "taxObjectId" (str object_id)) in
    ap (λ x. x.reply.status)
      (guarded-passes around req _ c ∙ with_owned-some db user object_id object _ o)
    ∙ checked_body-refuses around create_tax_return_schema _ body _
        (ap (λ x. parsed_with_id around x object_id) b)
        (std create_tax_return_schema body
          ∙ conforms-unknown (set_field fs "taxObjectId" (str object_id)) key v
              (get_field-set_field_other fs "taxObjectId" key (str object_id) (first_differs key h)
                ∙ g)
              h)
