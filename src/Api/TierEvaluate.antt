-- ===== src/Api/TierEvaluate.antt =====
-- apps/server/src/api/tier-evaluate.ts: the tier placement of a stored tax return.
use tea_tax_product.Prelude.{String, Option, none, some, if◌then◌else◌}
use tea_tax_product.Prelude.Enum.{◌===◌, string_eq}
use tea_tax_product.Api.{Request, Outcome, Db, replies, placed, not_evaluable}
use tea_tax_product.Api.Guards.{with_owned}
use tea_tax_product.Api.Paths.{match_verb}
use tea_tax_product.Api.TaxReturns.{authenticated, with_return, situation_data}

unfoldable pub evaluate_tax_return : String → String → String → Db → Outcome
unfolding with_owned with_return situation_data
evaluate_tax_return user object_id id db = with_owned user object_id db (λ object.
    with_return object_id id db (λ e. elim (situation_data e) [
      | none ↦ replies 200 (not_evaluable "no-situation-data")
      | some v ↦ replies 200 (placed v)
    ]))

unfoldable pub handle_tier_evaluate_request : Request → Db → Option Outcome
unfolding match_verb authenticated
handle_tier_evaluate_request req db = elim (match_verb "tier-evaluate" req.path) [
  | none ↦ none
  | some m ↦
      if req.method === "POST"
      then authenticated req.user (λ user. some (evaluate_tax_return user m.0 m.1 db))
      else none
]
