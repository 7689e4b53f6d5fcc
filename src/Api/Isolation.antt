-- ===== src/Api/Isolation.antt =====
-- What a request leaves alone: the tables when it fails, and the rows of other users.
use tea_tax_product.Prelude.{
  ◌≡◌, refl, ℕ, String, true, false, none, some, arith, and-false, ◌∙◌, sym, Option-cases, inl, inr,
}
use mathlib.Core.Option.{some_inj}
use tea_tax_product.Prelude.Enum.{◌===◌, string_eq}
use tea_tax_product.Api.{
  Entity, Request, Surroundings, Outcome, Db, Effect, commit, select_row, owned_object, return_of,
  text_is,
}
use tea_tax_product.Api.Rows.{
  select_row-update_entities, select_row-cons, owned_object-some, return_of-some, text_is_inj,
}
use tea_tax_product.Api.TaxObjects.{new_object, merged_object}
use tea_tax_product.Api.NewReturn.{new_return}
use tea_tax_product.Api.TaxReturns.{merged_return}
use tea_tax_product.Api.Steps.{
  Lawful, quiet, writes, Permitted, new_tax_object, changed_tax_object, new_tax_return,
  changed_tax_return,
}
use tea_tax_product.Api.Dispatch.{dispatch, serve}
use tea_tax_product.Api.LawfulDispatch.{dispatch-Lawful}

module _ (around : Surroundings) (db : Db) (id : String) (x : Entity) where
  -- An own tax object is not the object of another user.
  owned-other :
      (user id2 : String) (e : Entity)
      → select_row id "tax_object" db.entities ≡ some x
      → text_is x.properties "created_by_user_id" user ≡ false
      → owned_object user id2 db.entities ≡ some e
      → (id2 === id) ≡ false
  owned-other user id2 e s t o =
      ground (arith, owned_object-some user id2 db.entities e o, string_eq.test_iff id2 id)

  Permitted-object :
      {user : String} {n : ℕ} {eff : Effect}
      → Permitted around user db n eff
      → select_row id "tax_object" db.entities ≡ some x
      → text_is x.properties "created_by_user_id" user ≡ false
      → (id === around.first_uuid) ≡ false
      → select_row id "tax_object" (commit eff db).entities ≡ some x
  unfolding commit new_object new_return
  Permitted-object {user} (new_tax_object body a) s t f =
      select_row-cons id "tax_object" (new_object around user body) db.entities f ∙ s
  Permitted-object {user} (changed_tax_object id2 e body o a) s t f =
      select_row-update_entities id2 "tax_object" (merged_object e.properties body) around.now id
        "tax_object" db.entities (rw (owned-other user id2 e s t o) refl)
      ∙ s
  Permitted-object (new_tax_return id2 y body o a u) s t f =
      select_row-cons id "tax_object" (new_return around id2 body) db.entities f ∙ s
  Permitted-object (changed_tax_return id2 id3 y e body o r a) s t f =
      select_row-update_entities id3 "tax_return" (merged_return e.properties body) around.now id
        "tax_object" db.entities (and-false (id3 === id))
      ∙ s

  -- A tax return under an object that the user does not own is not one that the user reaches.
  return-other :
      (user object_id object_id2 id2 : String) (y e : Entity)
      → select_row id "tax_return" db.entities ≡ some x
      → text_is x.properties "tax_object_id" object_id ≡ true
      → owned_object user object_id db.entities ≡ none
      → owned_object user object_id2 db.entities ≡ some y
      → return_of object_id2 id2 db.entities ≡ some e
      → (id2 === id) ≡ false
  return-other user object_id object_id2 id2 y e s t n o r = ground (
    arith,
    return_of-some object_id2 id2 db.entities e r,
    string_eq.test_iff id2 id,
    text_is_inj x.properties "tax_object_id" object_id object_id2,
  )

  Permitted-return :
      {user : String} {n : ℕ} {eff : Effect}
      → Permitted around user db n eff
      → (object_id : String) → select_row id "tax_return" db.entities ≡ some x
      → text_is x.properties "tax_object_id" object_id ≡ true
      → owned_object user object_id db.entities ≡ none
      → (id === around.first_uuid) ≡ false
      → select_row id "tax_return" (commit eff db).entities ≡ some x
  unfolding commit new_object new_return
  Permitted-return {user} (new_tax_object body a) object_id s t m f =
      select_row-cons id "tax_return" (new_object around user body) db.entities f ∙ s
  Permitted-return (changed_tax_object id2 e body o a) object_id s t m f =
      select_row-update_entities id2 "tax_object" (merged_object e.properties body) around.now id
        "tax_return" db.entities (and-false (id2 === id))
      ∙ s
  Permitted-return (new_tax_return id2 y body o a u) object_id s t m f =
      select_row-cons id "tax_return" (new_return around id2 body) db.entities f ∙ s
  Permitted-return {user} (changed_tax_return id2 id3 y e body o r a) object_id s t m f =
      select_row-update_entities id3 "tax_return" (merged_return e.properties body) around.now id
        "tax_return" db.entities (rw (return-other user object_id id2 id3 y e s t m o r) refl)
      ∙ s

  Lawful-object :
      {req : Request} {o : Outcome} (user : String)
      → Lawful around req db o
      → req.user ≡ some user
      → select_row id "tax_object" db.entities ≡ some x
      → text_is x.properties "created_by_user_id" user ≡ false
      → (id === around.first_uuid) ≡ false
      → select_row id "tax_object" (commit o.effect db).entities ≡ some x
  unfolding commit
  Lawful-object user (quiet r) u s t f = s
  Lawful-object user (writes user2 o u2 c p q) u s t f =
      Permitted-object p s (rw (some_inj.0 (sym u2 ∙ u)) t) f

  Lawful-return :
      {req : Request} {o : Outcome} (user object_id : String)
      → Lawful around req db o
      → req.user ≡ some user
      → select_row id "tax_return" db.entities ≡ some x
      → text_is x.properties "tax_object_id" object_id ≡ true
      → owned_object user object_id db.entities ≡ none
      → (id === around.first_uuid) ≡ false
      → select_row id "tax_return" (commit o.effect db).entities ≡ some x
  unfolding commit
  Lawful-return user object_id (quiet r) u s t m f = s
  Lawful-return user object_id (writes user2 o u2 c p q) u s t m f =
      Permitted-return p object_id s t (rw (some_inj.0 (sym u2 ∙ u)) m) f

  -- A request of a user leaves a tax object of another user as it is: its row, which is not the one that a new
  -- identifier names, is found unchanged after the request.
  pub serve-other_object :
      (req : Request) (user : String)
      → req.user ≡ some user
      → select_row id "tax_object" db.entities ≡ some x
      → text_is x.properties "created_by_user_id" user ≡ false
      → (id === around.first_uuid) ≡ false
      → select_row id "tax_object" (serve around req db).entities ≡ some x
  unfolding serve
  serve-other_object req user u s t f = elim (Option-cases (dispatch around req db)) [
    | inl e ↦ rw (e, serve) s
    | inr p ↦ rw (p.1, serve) (Lawful-object user (dispatch-Lawful around req db p.0 p.1) u s t f)
  ]

  -- A request of a user leaves a tax return under a tax object that the user does not own as it is, if its row is
  -- not the one that a new identifier names.
  pub serve-other_return :
      (req : Request) (user object_id : String)
      → req.user ≡ some user
      → select_row id "tax_return" db.entities ≡ some x
      → text_is x.properties "tax_object_id" object_id ≡ true
      → owned_object user object_id db.entities ≡ none
      → (id === around.first_uuid) ≡ false
      → select_row id "tax_return" (serve around req db).entities ≡ some x
  unfolding serve
  serve-other_return req user object_id u s t m f = elim (Option-cases (dispatch around req db)) [
    | inl e ↦ rw (e, serve) s
    | inr p ↦
        rw (p.1, serve)
          (Lawful-return user object_id (dispatch-Lawful around req db p.0 p.1) u s t m f)
  ]
