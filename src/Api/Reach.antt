-- ===== src/Api/Reach.antt =====
-- The tables that requests lead to from empty ones.
use tea_tax_product.Prelude.{
  ◌≡◌, refl, sym, ℕ, String, Bool, true, ◌&&◌, some, List, [], ◌∷◌, all, arith, ap, ◌∙◌,
  Option-cases, Bool-cases, inl, inr,
}
use tea_tax_product.Prelude.Enum.{string_eq}
use tea_tax_product.Js.{Value, Fields}
use tea_tax_product.Schema.{Schema, conforms}
use tea_tax_product.Api.{
  Entity, Surroundings, Request, Outcome, Db, Effect, commit, updated, is_row, select_row,
  update_entities,
}
use tea_tax_product.Api.Rows.{owned_object-some, return_of-some}
use tea_tax_product.Api.TaxObjects.{new_object, merged_object}
use tea_tax_product.Api.NewReturn.{new_return}
use tea_tax_product.Api.TaxReturns.{merged_return}
use tea_tax_product.Api.Dispatch.{dispatch, serve}
use tea_tax_product.Api.Steps.{
  Lawful, quiet, writes, Permitted, new_tax_object, changed_tax_object, new_tax_return,
  changed_tax_return,
}
use tea_tax_product.Api.LawfulDispatch.{dispatch-Lawful}
use tea_tax_product.Api.Stored.{
  stored, stored_object, stored_return, new_object-stored, merged_object-stored, new_return-stored,
  merged_return-stored,
}

-- The validator answers as draft-07 of JSON Schema says.
abbrev pub Standard : Surroundings → Type 0
Standard around = (s : Schema) (v : Value) → around.accepts s v ≡ conforms s v

pub data Reachable : Db → Type 0 where
  empty : Reachable (record { entities = []; relations = [] })
  request :
      (around : Surroundings) (req : Request) (db : Db)
      → Standard around
      → Reachable db
      → Reachable (serve around req db)

select_row-all :
    (p : Entity → Bool) (id type : String) (es : List Entity) (e : Entity)
    → all p es ≡ true
    → select_row id type es ≡ some e
    → (p e ≡ true) × (e.type ≡ type)
unfolding select_row is_row all
select_row-all p id type [] e h s = ground arith
select_row-all p id type (x ∷ es) e h s =
    ground (arith, select_row-all p id type es e, string_eq.test_iff x.type type)

update_entities-all :
    (p : Entity → Bool) (id type : String) (fs : Fields) (now : ℕ) (es : List Entity)
    → ((e : Entity) → e.type ≡ type → p (updated fs now e) ≡ true)
    → all p es ≡ true
    → all p (update_entities id type fs now es) ≡ true
unfolding update_entities is_row all
update_entities-all p id type fs now [] h a = refl
update_entities-all p id type fs now (e ∷ es) h a = elim (Bool-cases (is_row id type e)) [
  | inl r ↦
      rw (r, update_entities) ground
        (arith, h e, update_entities-all p id type fs now es h, string_eq.test_iff e.type type)
  | inr r ↦ rw (r, update_entities) ground (arith, update_entities-all p id type fs now es h)
]

stored_of_object :
    (e : Entity) → e.type ≡ "tax_object" → stored_object e.properties ≡ true → stored e ≡ true
stored_of_object e t h = rw t h

object_of_stored :
    (e : Entity) → e.type ≡ "tax_object" → stored e ≡ true → stored_object e.properties ≡ true
object_of_stored e t h = sym (rw t refl) ∙ h

stored_of_return :
    (e : Entity) → e.type ≡ "tax_return" → stored_return e.properties ≡ true → stored e ≡ true
stored_of_return e t h = rw t h

return_of_stored :
    (e : Entity) → e.type ≡ "tax_return" → stored e ≡ true → stored_return e.properties ≡ true
return_of_stored e t h = sym (rw t refl) ∙ h

cons-stored :
    (e : Entity) (es : List Entity)
    → stored e ≡ true
    → all stored es ≡ true
    → all stored (e ∷ es) ≡ true
unfolding all
cons-stored e es h a = ap (λ b. b && all stored es) h ∙ a

module _ {around : Surroundings} {user : String} {db : Db} where
  Permitted-stored :
      {n : ℕ} {eff : Effect}
      → Standard around
      → Permitted around user db n eff
      → all stored db.entities ≡ true
      → all stored (commit eff db).entities ≡ true
  unfolding commit new_object new_return updated
  Permitted-stored std (new_tax_object body a) h =
      cons-stored _ _ (new_object-stored around user body (sym (std _ body) ∙ a)) h
  Permitted-stored std (changed_tax_object id e body o a) h =
      let s = (owned_object-some user id db.entities e o).0 in
      let r = select_row-all stored id "tax_object" db.entities e h s in
      let m =
        merged_object-stored around user body e.properties (sym (std _ body) ∙ a)
          (object_of_stored e r.1 r.0) in
      update_entities-all stored id "tax_object" _ _ db.entities
        (λ x t. stored_of_object (updated (merged_object e.properties body) around.now x) t m) h
  Permitted-stored std (new_tax_return id x body o a u) h =
      cons-stored _ _ (new_return-stored around id body (sym (std _ body) ∙ a)) h
  Permitted-stored std (changed_tax_return oid id x e body o r a) h =
      let s = (return_of-some oid id db.entities e r).0 in
      let q = select_row-all stored id "tax_return" db.entities e h s in
      let m =
        merged_return-stored e.properties body (sym (std _ body) ∙ a)
          (return_of_stored e q.1 q.0) in
      update_entities-all stored id "tax_return" _ _ db.entities
        (λ x2 t. stored_of_return (updated (merged_return e.properties body) around.now x2) t m) h

Lawful-stored :
    {around : Surroundings} {req : Request} {db : Db} {o : Outcome}
    → Standard around
    → Lawful around req db o
    → all stored db.entities ≡ true
    → all stored (commit o.effect db).entities ≡ true
unfolding commit
Lawful-stored std (quiet r) h = h
Lawful-stored std (writes user o u c p q) h = Permitted-stored std p h

-- In all tables that requests under /api/tax-objects lead to from empty ones, with a validator that answers
-- as draft-07 of JSON Schema says, every tax object has one of the known types and a year from 2000 to 2100, and every
-- tax return has a known filing status and no situation but one that the schema of tax situations accepts.
pub Reachable-stored : {db : Db} → Reachable db → all stored db.entities ≡ true
unfolding serve all
Reachable-stored empty = refl
Reachable-stored (request around req db std r) = elim (Option-cases (dispatch around req db)) [
  | inl e ↦ rw (e, serve) (Reachable-stored r)
  | inr p ↦
      rw (p.1, serve)
        (Lawful-stored std (dispatch-Lawful around req db p.0 p.1) (Reachable-stored r))
]
