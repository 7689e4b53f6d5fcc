-- ===== src/Api/Lawful.antt =====
-- The handlers under /api/tax-objects meet their specification.
use tea_tax_product.Prelude.{
  ◌≡◌, refl, String, Bool, true, false, Option, none, some, Bool-cases, inl, inr, if◌then◌else◌,
}
use mathlib.Core.Path.{subst}
use mathlib.Core.Option.{some_inj}
use tea_tax_product.Prelude.Enum.{string_eq}
use tea_tax_product.Js.{Value}
use tea_tax_product.Schema.Bodies.{
  create_tax_object_schema, patch_tax_object_schema, create_tax_return_schema,
  patch_tax_return_schema,
}
use tea_tax_product.Api.{Entity, inserted, owned_object, Request, Surroundings, Outcome, Db, row}
use tea_tax_product.Api.TaxObjects.{
  new_object, owns, create_tax_object, list_tax_objects, get_tax_object, patch_tax_object,
}
use tea_tax_product.Api.NewReturn.{insert_return, new_return, belongs_to, violates_unique, conflict}
use tea_tax_product.Api.TaxReturns.{
  create_tax_return, list_tax_returns, get_tax_return, patch_tax_return, validate_tax_return,
  situation_data, authenticated,
}
use tea_tax_product.Api.TierEvaluate.{evaluate_tax_return}
use tea_tax_product.Api.Csrf.{verify_csrf}
use tea_tax_product.Api.Steps.{
  Lawful, writes, inserted-heard, new_tax_object, changed_tax_object, new_tax_return,
  changed_tax_return, replies-Lawful, guarded-Lawful, with_owned-Lawful, with_return-Lawful,
  checked_body-Lawful,
}

module _ (around : Surroundings) (req : Request) (db : Db) (user : String)
    (h : req.user ≡ some user) where
  pub create_tax_object-Lawful : Lawful around req db (create_tax_object around user req db)
  unfolding create_tax_object inserted
  create_tax_object-Lawful = guarded-Lawful around req db _ (λ c.
      checked_body-Lawful around req db create_tax_object_schema req.body _ (λ v e a.
        writes user _ h c (new_tax_object v a)
          (inserted-heard (new_object around user v) (owns around user) "tax_object.created" db)))

  pub list_tax_objects-Lawful : Lawful around req db (list_tax_objects user db)
  unfolding list_tax_objects
  list_tax_objects-Lawful = replies-Lawful around req db 200 _

  pub get_tax_object-Lawful : (id : String) → Lawful around req db (get_tax_object user id db)
  unfolding get_tax_object
  get_tax_object-Lawful id =
      with_owned-Lawful around req db user id _ (λ e o. replies-Lawful around req db 200 (row e))

  pub patch_tax_object-Lawful :
      (id : String) → Lawful around req db (patch_tax_object around user id req db)
  unfolding patch_tax_object
  patch_tax_object-Lawful id = guarded-Lawful around req db _ (λ c.
      with_owned-Lawful around req db user id _ (λ e o.
        checked_body-Lawful around req db patch_tax_object_schema req.body _
          (λ v b a. writes user _ h c (changed_tax_object id e v o a) refl)))

  insert_return-Lawful :
      (object_id : String) (object : Entity) (body : Value)
      → owned_object user object_id db.entities ≡ some object
      → around.accepts create_tax_return_schema body ≡ true
      → verify_csrf around.csrf_disabled req ≡ none
      → Lawful around req db (insert_return around object_id body db)
  unfolding insert_return conflict inserted
  insert_return-Lawful object_id object body o a c =
      elim (Bool-cases (violates_unique (new_return around object_id body) db.entities)) [
        | inl e ↦ rw (e, insert_return) (replies-Lawful around req db 409 _)
        | inr e ↦
            rw (e, insert_return)
              (writes user _ h c (new_tax_return object_id object body o a e) (
                inserted-heard (new_return around object_id body) (belongs_to around object_id)
                  "tax_return.created" db))
      ]

  pub create_tax_return-Lawful :
      (object_id : String) → Lawful around req db (create_tax_return around user object_id req db)
  unfolding create_tax_return
  create_tax_return-Lawful object_id = guarded-Lawful around req db _ (λ c.
      with_owned-Lawful around req db user object_id _ (λ object o.
        checked_body-Lawful around req db create_tax_return_schema _ _
          (λ v b a. insert_return-Lawful object_id object v o a c)))

  pub patch_tax_return-Lawful :
      (object_id id : String)
      → Lawful around req db (patch_tax_return around user object_id id req db)
  unfolding patch_tax_return
  patch_tax_return-Lawful object_id id = guarded-Lawful around req db _ (λ c.
      with_owned-Lawful around req db user object_id _ (λ object o.
        with_return-Lawful around req db object_id id _ (λ e r.
          checked_body-Lawful around req db patch_tax_return_schema req.body _
            (λ v b a. writes user _ h c (changed_tax_return object_id id object e v o r a) refl))))

  stored-Lawful :
      (o : Option Value) (absent : Outcome) (present : Value → Outcome)
      → Lawful around req db absent
      → ((v : Value) → Lawful around req db (present v))
      → Lawful around req db (elim o [ none ↦ absent | some v ↦ present v ])
  stored-Lawful none absent present a p = a
  stored-Lawful (some v) absent present a p = p v

  pub validate_tax_return-Lawful :
      (object_id id : String) → Lawful around req db (validate_tax_return user object_id id db)
  unfolding validate_tax_return
  validate_tax_return-Lawful object_id id = with_owned-Lawful around req db user object_id _ (λ x o.
      with_return-Lawful around req db object_id id _ (λ e r.
        stored-Lawful (situation_data e) _ _ (replies-Lawful around req db 422 _)
          (λ v. replies-Lawful around req db 200 _)))

  pub evaluate_tax_return-Lawful :
      (object_id id : String) → Lawful around req db (evaluate_tax_return user object_id id db)
  unfolding evaluate_tax_return
  evaluate_tax_return-Lawful object_id id = with_owned-Lawful around req db user object_id _ (λ x o.
      with_return-Lawful around req db object_id id _ (λ e r.
        stored-Lawful (situation_data e) _ _ (replies-Lawful around req db 200 _)
          (λ v. replies-Lawful around req db 200 _)))

  pub list_tax_returns-Lawful :
      (object_id : String) → Lawful around req db (list_tax_returns user object_id db)
  unfolding list_tax_returns
  list_tax_returns-Lawful object_id =
      with_owned-Lawful around req db user object_id _ (λ x o. replies-Lawful around req db 200 _)

  pub get_tax_return-Lawful :
      (object_id id : String) → Lawful around req db (get_tax_return user object_id id db)
  unfolding get_tax_return
  get_tax_return-Lawful object_id id = with_owned-Lawful around req db user object_id _ (λ x o.
      with_return-Lawful around req db object_id id _ (λ e r. replies-Lawful around req db 200 _))

-- An answer, if there is one, is lawful.
pub record Answers (around : Surroundings) (req : Request) (db : Db) (o : Option Outcome)
    : Type 0 where
  pub lawful : (x : Outcome) → o ≡ some x → Lawful around req db x

module _ {around : Surroundings} {req : Request} {db : Db} where
  pub none-Answers : Answers around req db none
  none-Answers = record { lawful = λ x e. cc }

  pub some-Answers : {o : Outcome} → Lawful around req db o → Answers around req db (some o)
  some-Answers l = record { lawful = λ x e. subst (Lawful around req db) (some_inj.0 e) l }

  pub if-Answers :
      (b : Bool) {x y : Option Outcome}
      → Answers around req db x
      → Answers around req db y
      → Answers around req db (if b then x else y)
  if-Answers true p q = p
  if-Answers false p q = q

  pub authenticated-Answers :
      (user : Option String) {next : String → Option Outcome}
      → ((u : String) → user ≡ some u → Answers around req db (next u))
      → Answers around req db (authenticated user next)
  unfolding authenticated
  authenticated-Answers none h = some-Answers (replies-Lawful around req db 401 _)
  authenticated-Answers (some u) h = h u refl

  -- A route that matches is answered by what follows.
  pub matched-Answers {ℓ} :
      {A : Type ℓ} (o : Option A) {found : A → Option Outcome} {missing : Option Outcome}
      → ((a : A) → Answers around req db (found a))
      → Answers around req db missing
      → Answers around req db (elim o [ none ↦ missing | some a ↦ found a ])
  matched-Answers none h m = m
  matched-Answers (some a) h m = h a

  pub first-Answers :
      (x : Option Outcome) {y : Option Outcome}
      → Answers around req db x
      → Answers around req db y
      → Answers around req db (elim x [ some o ↦ some o | none ↦ y ])
  first-Answers none p q = q
  first-Answers (some o) p q = p
