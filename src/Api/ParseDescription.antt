-- ===== src/Api/ParseDescription.antt =====
-- apps/server/src/api/parse-description.ts: the handler that has a description parsed, which writes nothing. The call of
-- the claude CLI and what is made of its output is the parameter `describe`.
use text.Mathlib.Text.{starts_with}
use tea_tax_product.Prelude.{
  String, Bool, false, ◌&&◌, Option, none, some, List, [], ◌∷◌, any, if◌then◌else◌,
}
use tea_tax_product.Prelude.Enum.{◌===◌, string_eq}
use tea_tax_product.Js.{Value, str, property}
use tea_tax_product.Api.{Request, Surroundings, Outcome, replies, described, not_described}
use tea_tax_product.Api.TaxReturns.{authenticated}

-- url.pathname.includes('/returns')
unfoldable pub within_returns : List String → Bool
unfolding any
within_returns [] = false
within_returns (root ∷ parts) = any (λ part. starts_with part "returns") parts

-- url.pathname.endsWith('/parse-description'), for a path below /api
unfoldable pub ends_in_parse : List String → Bool
ends_in_parse [] = false
ends_in_parse (part ∷ []) = part === "parse-description"
ends_in_parse (part ∷ next ∷ parts) = ends_in_parse (next ∷ parts)

unfoldable pub parse_text : Surroundings → String → Outcome
parse_text around text =
    if text === ""
    then replies 400 (not_described "description must not be empty")
    else elim (around.describe text) [
      | none ↦ replies 500 (not_described "Parse failed")
      | some v ↦ replies 200 (described v)
    ]

unfoldable pub parse_field : Surroundings → Option Value → Outcome
unfolding parse_text
parse_field around (some (str s)) = parse_text around (around.trim s)
parse_field around _ =
    replies 400 (not_described "Request body must be JSON with a \"description\" string field")

unfoldable pub parse_body : Surroundings → Option Value → Outcome
unfolding parse_field property
parse_body around none =
    replies 400 (not_described "Request body must be JSON with a \"description\" field")
parse_body around (some v) = parse_field around (property v "description")

unfoldable pub handle_parse_description_request : Surroundings → Request → Option Outcome
unfolding ends_in_parse parse_body authenticated
handle_parse_description_request around req =
    if ends_in_parse req.path && req.method === "POST"
    then authenticated req.user (λ user. some (parse_body around req.body))
    else none
