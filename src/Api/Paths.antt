-- ===== src/Api/Paths.antt =====
-- The paths of apps/server/src/api/tax-objects.ts, tax-returns.ts and tier-evaluate.ts, by the parts between
-- their slashes. Each pattern of the tax returns contains "/returns", so the first test of that handler, for
-- the text, follows from the patterns.
use text.Mathlib.Text.{starts_with}
use tea_tax_product.Prelude.{
  String, Bool, false, not, ◌&&◌, Option, none, some, List, [], ◌∷◌, if◌then◌else◌,
}
use tea_tax_product.Prelude.Enum.{◌===◌, string_eq}

-- url.pathname.startsWith('/api/tax-objects')
unfoldable pub under_tax_objects : List String → Bool
under_tax_objects (root ∷ api ∷ part ∷ rest) =
    root === "" && api === "api" && starts_with part "tax-objects"
under_tax_objects _ = false

-- url.pathname === '/api/tax-objects'
unfoldable pub is_collection : List String → Bool
is_collection (root ∷ api ∷ part ∷ []) = root === "" && api === "api" && part === "tax-objects"
is_collection _ = false

-- /^\/api\/tax-objects\/[^/]+$/, with the fourth part of the path
unfoldable pub single_object : List String → Option String
single_object (root ∷ api ∷ part ∷ id ∷ []) =
    if root === "" && api === "api" && part === "tax-objects" && not (id === "")
    then some id
    else none
single_object _ = none

-- The parts of a path below /api/tax-objects/:id/returns
unfoldable pub is_returns : String → String → String → String → String → Bool
is_returns root api part id returns =
    root === ""
    && api === "api"
    && part === "tax-objects"
    && not (id === "")
    && returns === "returns"

-- LIST_CREATE_PATTERN
unfoldable pub match_list_create : List String → Option String
unfolding is_returns
match_list_create (root ∷ api ∷ part ∷ id ∷ returns ∷ []) =
    if is_returns root api part id returns then some id else none
match_list_create _ = none

-- SINGLE_PATTERN
unfoldable pub match_single : List String → Option (String × String)
unfolding is_returns
match_single (root ∷ api ∷ part ∷ id ∷ returns ∷ return_id ∷ []) =
    if is_returns root api part id returns && not (return_id === "")
    then some (id, return_id)
    else none
match_single _ = none

-- VALIDATE_PATTERN and, for `verb` "tier-evaluate", TIER_EVALUATE_PATTERN
unfoldable pub match_verb : String → List String → Option (String × String)
unfolding is_returns
match_verb verb (root ∷ api ∷ part ∷ id ∷ returns ∷ return_id ∷ last ∷ []) =
    if is_returns root api part id returns && not (return_id === "") && last === verb
    then some (id, return_id)
    else none
match_verb verb _ = none
