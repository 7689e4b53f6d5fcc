-- ===== src/Api/RoundTrip.antt =====
-- What is created can be read back.
use tea_tax_product.Prelude.{◌≡◌, refl, ap, String, true, false, none, some, List, ◌∷◌, arith, ◌∙◌}
use tea_tax_product.Prelude.Enum.{◌===◌, string_eq}
use tea_tax_product.Js.{Value, str, Fields, get_field, property, strict_eq}
use tea_tax_product.Schema.Bodies.{create_tax_object_schema, create_tax_return_schema}
use tea_tax_product.Api.{
  Request, Surroundings, Db, Entity, commit, insert, inserted, replies, row, select_row, is_row,
  owned_object, return_of, text_is,
}
use tea_tax_product.Api.Csrf.{verify_csrf}
use tea_tax_product.Api.GuardLaws.{
  guarded-passes, checked_body-accepts, with_owned-some, with_return-some,
}
use tea_tax_product.Api.FieldLaws.{get_field-optional_other}
use tea_tax_product.Api.Rows.{select_row-cons}
use tea_tax_product.Api.TaxObjects.{create_tax_object, get_tax_object, new_object, owns}
use tea_tax_product.Api.NewReturn.{
  body_with_id, insert_return, new_return, belongs_to, violates_unique,
}
use tea_tax_product.Api.TaxReturns.{create_tax_return, get_tax_return, with_return, parsed_with_id}

-- A new row at the front is the one that its identifier and type find.
select_row-new :
    (id type : String) (e : Entity) (es : List Entity)
    → e.id ≡ id
    → e.type ≡ type
    → select_row id type (e ∷ es) ≡ some e
unfolding select_row is_row
select_row-new id type e es h k =
    ground (arith, string_eq.test_iff e.id id, string_eq.test_iff e.type type)

text_is-some :
    (fs : Fields) (key text : String)
    → get_field fs key ≡ some (str text)
    → text_is fs key text ≡ true
unfolding text_is strict_eq
text_is-some fs key text h = rw (h, text_is) ((string_eq.test_iff text text).1 refl)

new_object-owner :
    (around : Surroundings) (user : String) (body : Value)
    → text_is (new_object around user body).properties "created_by_user_id" user ≡ true
unfolding new_object get_field
new_object-owner around user body = text_is-some _ _ _ (
    get_field-optional_other "object_type" _ (property body "objectType") _ "created_by_user_id"
      refl
    ∙ get_field-optional_other "filing_year" _ (property body "filingYear") _ "created_by_user_id"
        refl)

owned_object-new :
    (around : Surroundings) (user : String) (body : Value) (es : List Entity)
    → owned_object user around.first_uuid (new_object around user body ∷ es)
      ≡ some (new_object around user body)
unfolding owned_object new_object
owned_object-new around user body es = ground (
  arith,
  select_row-new around.first_uuid "tax_object" (new_object around user body) es refl refl,
  new_object-owner around user body,
)

create_tax_object-effect :
    (around : Surroundings) (req : Request) (db : Db) (user : String) (body : Value)
    → verify_csrf around.csrf_disabled req ≡ none
    → req.body ≡ some body
    → around.accepts create_tax_object_schema body ≡ true
    → (create_tax_object around user req db).effect
      ≡ insert (new_object around user body) (owns around user)
unfolding create_tax_object inserted
create_tax_object-effect around req db user body c b a =
    ap (λ o. o.effect)
      (guarded-passes around req _ c
        ∙ checked_body-accepts around create_tax_object_schema req.body body _ b a)

-- The tax object that an accepted POST creates is what its user then gets under the new identifier.
pub create_tax_object-get :
    (around : Surroundings) (req : Request) (db : Db) (user : String) (body : Value)
    → verify_csrf around.csrf_disabled req ≡ none
    → req.body ≡ some body
    → around.accepts create_tax_object_schema body ≡ true
    → get_tax_object user around.first_uuid
        (commit (create_tax_object around user req db).effect db)
      ≡ replies 200 (row (new_object around user body))
unfolding get_tax_object commit
create_tax_object-get around req db user body c b a =
    let e = new_object around user body in
    ap (λ x. get_tax_object user around.first_uuid (commit x db))
      (create_tax_object-effect around req db user body c b a)
    ∙ with_owned-some (commit (insert e (owns around user)) db) user around.first_uuid e
        (λ x. replies 200 (row x)) (owned_object-new around user body db.entities)

-- The row that a new return leaves an own tax object in place.
owned_object-new_return :
    (around : Surroundings) (user object_id id : String) (body : Value) (es : List Entity)
    → (id === around.first_uuid) ≡ false
    → owned_object user id (new_return around object_id body ∷ es) ≡ owned_object user id es
unfolding owned_object new_return
owned_object-new_return around user object_id id body es h =
    ground (arith, select_row-cons id "tax_object" (new_return around object_id body) es h)

return_of-new :
    (around : Surroundings) (object_id : String) (body : Value) (es : List Entity)
    → return_of object_id around.first_uuid (new_return around object_id body ∷ es)
      ≡ some (new_return around object_id body)
unfolding return_of new_return get_field
return_of-new around object_id body es = ground (
  arith,
  select_row-new around.first_uuid "tax_return" (new_return around object_id body) es refl refl,
  text_is-some (new_return around object_id body).properties "tax_object_id" object_id refl,
)

insert_return-effect :
    (around : Surroundings) (object_id : String) (body : Value) (db : Db)
    → violates_unique (new_return around object_id body) db.entities ≡ false
    → (insert_return around object_id body db).effect
      ≡ insert (new_return around object_id body) (belongs_to around object_id)
unfolding insert_return inserted
insert_return-effect around object_id body db h = rw (h, insert_return) refl

-- The tax return that an accepted POST creates under an own tax object, when the unique index lets it in and its
-- identifier is not the object's, is what the user then gets under that object and the new identifier.
pub create_tax_return-get :
    (around : Surroundings) (req : Request) (db : Db) (user object_id : String) (raw : Value)
    (object : Entity)
    → verify_csrf around.csrf_disabled req ≡ none
    → owned_object user object_id db.entities ≡ some object
    → req.body ≡ some raw
    → around.accepts create_tax_return_schema (body_with_id around raw object_id) ≡ true
    → violates_unique (new_return around object_id (body_with_id around raw object_id)) db.entities
      ≡ false
    → (object_id === around.first_uuid) ≡ false
    → get_tax_return user object_id around.first_uuid
        (commit (create_tax_return around user object_id req db).effect db)
      ≡ replies 200 (row (new_return around object_id (body_with_id around raw object_id)))
unfolding get_tax_return commit create_tax_return parsed_with_id
create_tax_return-get around req db user object_id raw object c o b a u f =
    let body = body_with_id around raw object_id in
    ap (λ x. get_tax_return user object_id around.first_uuid (commit x db))
      (ap (λ x. x.effect)
          (guarded-passes around req _ c
            ∙ with_owned-some db user object_id object _ o
            ∙ checked_body-accepts around create_tax_return_schema _ body _
                (ap (λ x. parsed_with_id around x object_id) b) a)
        ∙ insert_return-effect around object_id body db u)
    ∙ with_owned-some
        (commit (insert (new_return around object_id body) (belongs_to around object_id)) db) user
        object_id object
        (λ x.
          with_return object_id around.first_uuid
            (commit (insert (new_return around object_id body) (belongs_to around object_id)) db)
            (λ e. replies 200 (row e)))
        (owned_object-new_return around user object_id object_id body db.entities f ∙ o)
    ∙ with_return-some
        (commit (insert (new_return around object_id body) (belongs_to around object_id)) db)
        object_id around.first_uuid (new_return around object_id body) (λ e. replies 200 (row e))
        (return_of-new around object_id body db.entities)
