-- ===== src/Api/Guards.antt =====
-- The checks that the handlers of apps/server/src/api/tax-objects.ts and tax-returns.ts share, in the order in
-- which each handler makes them.
use tea_tax_product.Prelude.{String, Option, none, some, if◌then◌else◌}
use tea_tax_product.Js.{Value}
use tea_tax_product.Schema.{Schema}
use tea_tax_product.Api.{
  Entity, Request, Surroundings, Outcome, Db, replies, problem, invalid, owned_object,
}
use tea_tax_product.Api.Csrf.{verify_csrf}

-- The body of a request, once it parses and its schema accepts it.
unfoldable pub checked_body : Surroundings → Schema → Option Value → (Value → Outcome) → Outcome
checked_body around schema none next = replies 400 (problem "Invalid request body")
checked_body around schema (some v) next =
    if around.accepts schema v then next v else replies 400 (invalid (around.errors schema v))

-- The CSRF check of the state-changing methods, then the rest.
unfoldable pub guarded : Surroundings → Request → Outcome → Outcome
unfolding verify_csrf
guarded around req rest = elim (verify_csrf around.csrf_disabled req) [
  | some r ↦ replies r.status r.body
  | none ↦ rest
]

-- The tax object of the user, or 404.
unfoldable pub with_owned : String → String → Db → (Entity → Outcome) → Outcome
unfolding owned_object
with_owned user id db next = elim (owned_object user id db.entities) [
  | none ↦ replies 404 (problem "Not found")
  | some e ↦ next e
]
