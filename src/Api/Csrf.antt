-- ===== src/Api/Csrf.antt =====
-- apps/server/src/auth/csrf.ts: the double-submit check of state-changing requests.
use tea_tax_product.Prelude.{
  String, Bool, true, not, ◌||◌, Option, none, some, List, [], ◌∷◌, any, if◌then◌else◌,
}
use tea_tax_product.Prelude.Enum.{◌===◌, string_eq, includes}
use tea_tax_product.Api.{Request, Reply, problem}

unfoldable pub safe_methods : List String
safe_methods = "GET" ∷ "HEAD" ∷ "OPTIONS" ∷ []

-- !cookieToken || !headerToken || cookieToken !== headerToken
unfoldable pub tokens_differ : Option String → Option String → Bool
tokens_differ (some c) (some h) = c === "" || h === "" || not (c === h)
tokens_differ _ _ = true

-- `none` lets the request proceed.
unfoldable pub verify_csrf : Bool → Request → Option Reply
unfolding safe_methods tokens_differ includes any
verify_csrf disabled req =
    if disabled
    then none
    else if includes safe_methods req.method
    then none
    else if tokens_differ req.csrf_cookie req.csrf_header
    then some (record { status = 403; body = problem "CSRF token mismatch" })
    else none
