-- ===== src/Api/Dispatch.antt =====
-- apps/server/src/index.ts: the order in which the handlers under /api/tax-objects are asked. The path tests
-- around the calls let every path through that one of the handlers answers.
use tea_tax_product.Prelude.{Option, none, some, if◌then◌else◌}
use tea_tax_product.Api.{Request, Surroundings, Outcome, Db, commit}
use tea_tax_product.Api.Paths.{under_tax_objects}
use tea_tax_product.Api.TaxObjects.{handle_tax_objects_request}
use tea_tax_product.Api.TaxReturns.{handle_tax_returns_request}
use tea_tax_product.Api.ParseDescription.{within_returns, handle_parse_description_request}
use tea_tax_product.Api.TierEvaluate.{handle_tier_evaluate_request}

unfoldable pub parse_request : Surroundings → Request → Option Outcome
unfolding within_returns handle_parse_description_request
parse_request around req =
    if within_returns req.path then handle_parse_description_request around req else none

unfoldable pub dispatch : Surroundings → Request → Db → Option Outcome
unfolding under_tax_objects parse_request
dispatch around req db =
    if under_tax_objects req.path
    then elim (handle_tier_evaluate_request req db) [
      | some o ↦ some o
      | none ↦ elim (parse_request around req) [
        | some o ↦ some o
        | none ↦ elim (handle_tax_returns_request around req db) [
          | some o ↦ some o
          | none ↦ handle_tax_objects_request around req db
        ]
      ]
    ]
    else none

-- The tables after a request.
unfoldable pub serve : Surroundings → Request → Db → Db
unfolding commit
serve around req db = elim (dispatch around req db) [ none ↦ db | some o ↦ commit o.effect db ]
