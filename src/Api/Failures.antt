-- ===== src/Api/Failures.antt =====
-- What a failing request under /api/tax-objects writes.
use mathlib.Core.Path.{subst}
use tea_tax_product.Prelude.{
  ◌≡◌, refl, ℕ, ◌≤◌, String, true, false, some, List, [], ◌∷◌, arith, ◌∙◌, ap, ◌⊎◌, inl, inr,
}
use tea_tax_product.Api.{
  Entity, Relation, Request, Surroundings, Outcome, Db, Effect, nothing, insert, commit, references,
  insert_status,
}
use tea_tax_product.Api.TaxObjects.{new_object, owns}
use tea_tax_product.Api.NewReturn.{new_return, belongs_to}
use tea_tax_product.Api.Steps.{
  Lawful, quiet, writes, heard, heard_of, Permitted, new_tax_object, changed_tax_object,
  new_tax_return, changed_tax_return,
}
use tea_tax_product.Api.Dispatch.{dispatch}
use tea_tax_product.Api.LawfulDispatch.{dispatch-Lawful}

-- An INSERT whose relation was refused, and what is left of it.
pub record Orphan (db : Db) (o : Outcome) : Type 0 where
  pub status : o.reply.status ≡ 500
  pub entity : Entity
  pub relation : Relation
  pub effect : o.effect ≡ insert entity relation
  pub refused : references relation (entity ∷ db.entities) ≡ false
  pub left :
      commit o.effect db ≡ record { entities = entity ∷ db.entities; relations = db.relations }
  pub silent : o.broadcast ≡ []

insert_status-failure :
    (e : Entity) (r : Relation) (db : Db)
    → 400 ≤ insert_status e r db
    → (insert_status e r db ≡ 500) × (references r (e ∷ db.entities) ≡ false)
unfolding insert_status
insert_status-failure e r db h = ground arith

commit-refused :
    (e : Entity) (r : Relation) (db : Db)
    → references r (e ∷ db.entities) ≡ false
    → commit (insert e r) db ≡ record { entities = e ∷ db.entities; relations = db.relations }
unfolding commit
commit-refused e r db h = rw (h, commit) refl

heard_of-failure :
    (events : List String) (status : ℕ) → heard_of events status ≡ true → 400 ≤ status → events ≡ []
heard_of-failure [] status h n = refl
heard_of-failure (event ∷ events) status h n = absurd (ground arith)

Orphan-insert :
    (db : Db) (o : Outcome) (e : Entity) (r : Relation)
    → o.reply.status ≡ insert_status e r db
    → o.effect ≡ insert e r
    → heard o ≡ true
    → 400 ≤ o.reply.status
    → Orphan db o
Orphan-insert db o e r s f h n =
    let p = insert_status-failure e r db (subst (λ k. 400 ≤ k) s n) in
    record {
      status = s ∙ p.0;
      entity = e;
      relation = r;
      effect = f;
      refused = p.1;
      left = ap (λ x. commit x db) f ∙ commit-refused e r db p.1;
      silent = heard_of-failure o.broadcast o.reply.status h n;
    }

-- A permitted write with a failing status is an INSERT of an entity and its relation.
Permitted-failure :
    {around : Surroundings} {user : String} {db : Db} {n : ℕ} {eff : Effect}
    → Permitted around user db n eff
    → 400 ≤ n
    → (e : Entity) × ((r : Relation) × ((n ≡ insert_status e r db) × (eff ≡ insert e r)))
Permitted-failure {around} {user} (new_tax_object body a) h =
    (new_object around user body, (owns around user, (refl, refl)))
Permitted-failure (changed_tax_object id e body o a) h = absurd (omega (arith, h))
Permitted-failure {around} (new_tax_return id x body o a u) h =
    (new_return around id body, (belongs_to around id, (refl, refl)))
Permitted-failure (changed_tax_return oid id x e body o r a) h = absurd (omega (arith, h))

Lawful-failure :
    {around : Surroundings} {req : Request} {db : Db} {o : Outcome}
    → Lawful around req db o
    → 400 ≤ o.reply.status
    → ((o.effect ≡ nothing) × (o.broadcast ≡ [])) ⊎ Orphan db o
Lawful-failure (quiet r) h = inl (refl, refl)
Lawful-failure {db = db} (writes user o u c p s) h =
    let w = Permitted-failure p h in inr (Orphan-insert db o w.0 w.1.0 w.1.1.0 w.1.1.1 s h)

-- A request under /api/tax-objects that is answered with a status of 400 or more broadcasts nothing. It writes nothing,
-- or it is an INSERT of an entity whose relation the foreign keys refuse: then the status is 500, and the entity stays in
-- the table without a relation.
pub dispatch-failure :
    (around : Surroundings) (req : Request) (db : Db) (o : Outcome)
    → dispatch around req db ≡ some o
    → 400 ≤ o.reply.status
    → ((o.effect ≡ nothing) × (o.broadcast ≡ [])) ⊎ Orphan db o
dispatch-failure around req db o e h = Lawful-failure (dispatch-Lawful around req db o e) h
