-- ===== src/Api/NewReturn.antt =====
-- apps/server/src/api/tax-returns.ts: the body of POST, the row that it inserts, and the unique index of
-- packages/db/schema.sql that may refuse the row.
use tea_tax_product.Prelude.{
  ◌+◌, String, Bool, false, ◌&&◌, none, some, List, [], ◌∷◌, any, ℕ, if◌then◌else◌,
}
use tea_tax_product.Prelude.Enum.{◌===◌, string_eq}
use tea_tax_product.Prelude.Number.{whole}
use tea_tax_product.Js.{
  Value, str, obj, arr, Fields, end, field, get_field, property, strict_eq, items,
}
use tea_tax_product.TaxSituation.Values.{optional}
use tea_tax_product.Api.{
  Entity, Relation, Surroundings, Outcome, Db, replies, inserted, detailed, set_field,
}

-- Object.assign of an array or a text copies its elements under their indices.
unfoldable pub indexed : Surroundings → ℕ → List Value → Fields
indexed around n [] = end
indexed around n (v ∷ vs) = field (around.number_text (whole n)) v (indexed around (n + 1) vs)

unfoldable pub characters : String → List Value
characters String.[] = []
characters (String.◌∷◌ c s) = str (String.◌∷◌ c String.[]) ∷ characters s

-- Object.assign({}, rawBody as object, { taxObjectId })
unfoldable pub body_with_id : Surroundings → Value → String → Value
unfolding indexed characters set_field items
body_with_id around (obj fs) id = obj (set_field fs "taxObjectId" (str id))
body_with_id around (arr vs) id =
    obj (set_field (indexed around 0 (items vs)) "taxObjectId" (str id))
body_with_id around (str s) id =
    obj (set_field (indexed around 0 (characters s)) "taxObjectId" (str id))
body_with_id around _ id = obj (field "taxObjectId" (str id) end)

-- The row that POST inserts.
unfoldable pub new_return : Surroundings → String → Value → Entity
unfolding optional property
new_return around object_id body = record {
  id = around.first_uuid;
  type = "tax_return";
  properties = field "tax_object_id" (str object_id) (
      optional "tax_year" (λ v. v) (property body "filingYear")
        (field "jurisdiction" (str "federal") (
          field "return_type" (str "1040") (
            optional "filing_status" (λ v. v) (property body "filingStatus")
              (field "status" (str "draft")
                (optional "situation_data" (λ v. v) (property body "situationData") end))))));
  version = 1;
  created_at = around.now;
  updated_at = around.now;
}

unfoldable pub belongs_to : Surroundings → String → Relation
belongs_to around object_id = record {
  id = around.second_uuid;
  source_id = around.first_uuid;
  target_id = object_id;
  type = "belongs_to";
}

-- Both have a value at the key, and the same one.
unfoldable pub same_at : String → Fields → Fields → Bool
unfolding get_field
same_at key a b = elim (get_field a key) [
  | none ↦ false
  | some v ↦ elim (get_field b key) [ none ↦ false | some w ↦ strict_eq v w ]
]

-- idx_entities_tax_return_unique: two returns agree on its four keys.
unfoldable pub same_return : Fields → Fields → Bool
unfolding same_at
same_return a b =
    same_at "tax_object_id" a b
    && same_at "tax_year" a b
    && same_at "jurisdiction" a b
    && same_at "return_type" a b

unfoldable pub violates_unique : Entity → List Entity → Bool
unfolding same_return any
violates_unique e es =
    any (λ x. x.type === "tax_return" && same_return e.properties x.properties) es

unfoldable pub conflict : Outcome
unfolding replies
conflict = replies 409 (
    detailed "Conflict"
      "A tax return for this tax_object, tax_year, jurisdiction, and return_type already exists.")

unfoldable pub insert_return : Surroundings → String → Value → Db → Outcome
unfolding violates_unique inserted
insert_return around object_id body db =
    let e = new_return around object_id body in
    if violates_unique e db.entities
    then conflict
    else inserted e (belongs_to around object_id) "tax_return.created" db
