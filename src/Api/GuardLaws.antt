-- ===== src/Api/GuardLaws.antt =====
-- What the checks of the handlers give way to when they pass.
use tea_tax_product.Prelude.{◌≡◌, refl, String, true, Option, none, some}
use tea_tax_product.Js.{Value}
use tea_tax_product.Schema.{Schema}
use tea_tax_product.Api.{Entity, Request, Surroundings, Outcome, Db, owned_object, return_of}
use tea_tax_product.Api.Csrf.{verify_csrf}
use tea_tax_product.Api.Guards.{checked_body, guarded, with_owned}
use tea_tax_product.Api.TaxReturns.{with_return}

module _ (around : Surroundings) where
  pub guarded-passes :
      (req : Request) (rest : Outcome)
      → verify_csrf around.csrf_disabled req ≡ none
      → guarded around req rest ≡ rest
  unfolding guarded
  guarded-passes req rest h = rw (h, guarded) refl

  pub checked_body-accepts :
      (s : Schema) (body : Option Value) (v : Value) (next : Value → Outcome)
      → body ≡ some v
      → around.accepts s v ≡ true
      → checked_body around s body next ≡ next v
  unfolding checked_body
  checked_body-accepts s body v next b a = rw (b, checked_body) rw a refl

module _ (db : Db) where
  pub with_owned-some :
      (user id : String) (e : Entity) (next : Entity → Outcome)
      → owned_object user id db.entities ≡ some e
      → with_owned user id db next ≡ next e
  unfolding with_owned
  with_owned-some user id e next h = rw (h, with_owned) refl

  pub with_return-some :
      (object_id id : String) (e : Entity) (next : Entity → Outcome)
      → return_of object_id id db.entities ≡ some e
      → with_return object_id id db next ≡ next e
  unfolding with_return
  with_return-some object_id id e next h = rw (h, with_return) refl
