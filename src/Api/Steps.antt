-- ===== src/Api/Steps.antt =====
-- What a request under /api/tax-objects may do to the tables, as a relation: the specification that the handlers
-- meet.
use tea_tax_product.Prelude.{
  ◌≡◌, refl, ℕ, ltb, String, Bool, true, false, ◌∷◌, Option, none, some, List, [], Bool-cases,
  Option-cases, inl, inr,
}
use tea_tax_product.Js.{Value}
use tea_tax_product.Schema.{Schema}
use tea_tax_product.Schema.Bodies.{
  create_tax_object_schema, patch_tax_object_schema, create_tax_return_schema,
  patch_tax_return_schema,
}
use tea_tax_product.Api.{
  Entity, Relation, Request, Surroundings, Reply, Outcome, Db, Effect, nothing, insert, update,
  replies, insert_status, inserted, references, owned_object, return_of, problem, invalid,
}
use tea_tax_product.Api.Csrf.{verify_csrf}
use tea_tax_product.Api.Guards.{checked_body, guarded, with_owned}
use tea_tax_product.Api.TaxObjects.{new_object, owns, merged_object}
use tea_tax_product.Api.NewReturn.{new_return, belongs_to, violates_unique}
use tea_tax_product.Api.TaxReturns.{merged_return, with_return}

-- The writes that a user may cause, each with what it rests on.
pub data Permitted (around : Surroundings) (user : String) (db : Db) : ℕ → Effect → Type 0 where
  new_tax_object :
      (body : Value)
      → around.accepts create_tax_object_schema body ≡ true
      → Permitted around user db
          (insert_status (new_object around user body) (owns around user) db)
          (insert (new_object around user body) (owns around user))
  changed_tax_object :
      (id : String) (e : Entity) (body : Value)
      → owned_object user id db.entities ≡ some e
      → around.accepts patch_tax_object_schema body ≡ true
      → Permitted around user db 200
          (update id "tax_object" (merged_object e.properties body) around.now)
  new_tax_return :
      (object_id : String) (object : Entity) (body : Value)
      → owned_object user object_id db.entities ≡ some object
      → around.accepts create_tax_return_schema body ≡ true
      → violates_unique (new_return around object_id body) db.entities ≡ false
      → Permitted around user db
          (insert_status (new_return around object_id body) (belongs_to around object_id) db)
          (insert (new_return around object_id body) (belongs_to around object_id))
  changed_tax_return :
      (object_id id : String) (object e : Entity) (body : Value)
      → owned_object user object_id db.entities ≡ some object
      → return_of object_id id db.entities ≡ some e
      → around.accepts patch_tax_return_schema body ≡ true
      → Permitted around user db 200
          (update id "tax_return" (merged_return e.properties body) around.now)

-- A reply of success, or nobody is told.
abbrev pub heard_of : List String → ℕ → Bool
heard_of [] status = true
heard_of (event ∷ events) status = ltb status 400

abbrev pub heard : Outcome → Bool
heard o = heard_of o.broadcast o.reply.status

-- An outcome writes nothing and tells nobody, or it is a permitted write of the request's user after the CSRF
-- check.
pub data Lawful (around : Surroundings) (req : Request) (db : Db) : Outcome → Type 0 where
  quiet :
      (r : Reply) → Lawful around req db (record { reply = r; effect = nothing; broadcast = [] })
  writes :
      (user : String) (o : Outcome)
      → req.user ≡ some user
      → verify_csrf around.csrf_disabled req ≡ none
      → Permitted around user db o.reply.status o.effect
      → heard o ≡ true
      → Lawful around req db o

pub inserted-heard :
    (e : Entity) (r : Relation) (event : String) (db : Db) → heard (inserted e r event db) ≡ true
unfolding inserted insert_status
inserted-heard e r event db = elim (Bool-cases (references r (e ∷ db.entities))) [
  | inl h ↦ rw h refl
  | inr h ↦ rw h refl
]

module _ (around : Surroundings) (req : Request) (db : Db) where
  pub replies-Lawful : (n : ℕ) (b : _) → Lawful around req db (replies n b)
  unfolding replies
  replies-Lawful n b = quiet (record { status = n; body = b })

  pub guarded-Lawful :
      (rest : Outcome)
      → (verify_csrf around.csrf_disabled req ≡ none → Lawful around req db rest)
      → Lawful around req db (guarded around req rest)
  unfolding guarded
  guarded-Lawful rest h = elim (Option-cases (verify_csrf around.csrf_disabled req)) [
    | inl e ↦ rw (e, guarded) (h e)
    | inr p ↦ rw (p.1, guarded) (replies-Lawful p.0.status p.0.body)
  ]

  pub with_owned-Lawful :
      (user id : String) (next : Entity → Outcome)
      → ((e : Entity) → owned_object user id db.entities ≡ some e → Lawful around req db (next e))
      → Lawful around req db (with_owned user id db next)
  unfolding with_owned
  with_owned-Lawful user id next h = elim (Option-cases (owned_object user id db.entities)) [
    | inl e ↦ rw (e, with_owned) (replies-Lawful 404 (problem "Not found"))
    | inr p ↦ rw (p.1, with_owned) (h p.0 p.1)
  ]

  pub with_return-Lawful :
      (object_id id : String) (next : Entity → Outcome)
      → ((e : Entity) → return_of object_id id db.entities ≡ some e → Lawful around req db (next e))
      → Lawful around req db (with_return object_id id db next)
  unfolding with_return
  with_return-Lawful object_id id next h =
      elim (Option-cases (return_of object_id id db.entities)) [
        | inl e ↦ rw (e, with_return) (replies-Lawful 404 (problem "Not found"))
        | inr p ↦ rw (p.1, with_return) (h p.0 p.1)
      ]

  pub checked_body-Lawful :
      (schema : Schema) (body : Option Value) (next : Value → Outcome)
      → ((v : Value)
          → body ≡ some v
          → around.accepts schema v ≡ true
          → Lawful around req db (next v))
      → Lawful around req db (checked_body around schema body next)
  unfolding checked_body
  checked_body-Lawful schema none next h = replies-Lawful 400 (problem "Invalid request body")
  checked_body-Lawful schema (some v) next h = elim (Bool-cases (around.accepts schema v)) [
    | inl e ↦ rw e (h v refl e)
    | inr e ↦ rw e (replies-Lawful 400 (invalid (around.errors schema v)))
  ]
