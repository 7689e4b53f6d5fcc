-- ===== src/Schema.antt =====
-- The JSON Schemas of packages/core/tax-situation-schema.ts: the keywords that they use, with what draft-07
-- of the standard says that each requires of a value. The validator that compiles the schemas is not of the
-- repository: the routes take it as a parameter that answers as `conforms` does.
pub mod Enums
pub mod Parts
pub mod Bodies
pub mod Reading
pub mod Words
pub mod Accepted
pub mod AcceptedParts
pub mod Situations
pub mod Readable
use tea_tax_product.Prelude.{
  ℕ, ◌+◌, ◌%◌, leb, String, Bool, true, false, not, ◌&&◌, ◌||◌, Option, none, some, List, [], ◌∷◌,
  length, all, any, ◌==◌,
}
use tea_tax_product.Prelude.Enum.{◌===◌, string_eq, includes}
use tea_tax_product.Prelude.Int.{pos_part, neg_part}
use tea_tax_product.Prelude.Number.{Number, ge, whole}
use tea_tax_product.Js.{Value, Fields, end, field, items, get_field, code_points}

pub data JsonType : Type 0 where
  string number integer boolean null array object : JsonType

mutual
  -- A schema is the list of its keywords: a value conforms to it if it meets each.
  pub data Schema : Type 0 where
    any_value : Schema
    also : Keyword → Schema → Schema

  pub data Keyword : Type 0 where
    type : List JsonType → Keyword
    enum : List String → Keyword
    min_length max_length : ℕ → Keyword
    -- pattern: '^[0-9]{4}$'
    four_digits : Keyword
    minimum maximum : ℕ → Keyword
    elements : Schema → Keyword
    required : List String → Keyword
    -- `properties`, together with `additionalProperties`
    properties : Properties → Keyword
    min_properties : ℕ → Keyword
    one_of : Schema → Schema → Keyword

  pub data Properties : Type 0 where
    -- additionalProperties: false, or a schema
    no_other : Properties
    each_other : Schema → Properties
    property : String → Schema → Properties → Properties

unfoldable pub has_field : Fields → String → Bool
unfolding get_field
has_field fs key = elim (get_field fs key) [ none ↦ false | some v ↦ true ]

-- Object.entries
unfoldable pub entries : Fields → List (String × Value)
entries end = []
entries (field k v rest) = (k, v) ∷ entries rest

-- A number is an integer if its value is whole: 2024.0 is.
unfoldable pub is_type : JsonType → Value → Bool
is_type JsonType.string (Value.str s) = true
is_type JsonType.number (Value.num n) = true
is_type JsonType.integer (Value.num n) = (pos_part n + neg_part n) % 65536 == 0
is_type JsonType.boolean (Value.bool b) = true
is_type JsonType.null Value.null = true
is_type JsonType.array (Value.arr vs) = true
is_type JsonType.object (Value.obj fs) = true
is_type _ _ = false

unfoldable pub is_digit : ℕ → Bool
is_digit c = leb b'0' c && leb c b'9'

-- A keyword about strings, numbers, arrays or objects says nothing of the other values.
unfoldable mutual
  unfolding is_type is_digit has_field entries any all includes items

  pub conforms : Schema → Value → Bool
  conforms any_value v = true
  conforms (also k s) v = meets k v && conforms s v

  pub meets : Keyword → Value → Bool
  meets (type ts) v = any (λ t. is_type t v) ts
  meets (enum words) (Value.str s) = includes words s
  meets (enum words) _ = false
  meets (min_length n) (Value.str s) = leb n (length (code_points s))
  meets (max_length n) (Value.str s) = leb (length (code_points s)) n
  meets four_digits (Value.str s) = (length (code_points s) == 4) && all is_digit (code_points s)
  meets (minimum n) (Value.num x) = ge x (whole n)
  meets (maximum n) (Value.num x) = ge (whole n) x
  meets (elements s) (Value.arr vs) = all (λ v. conforms s v) (items vs)
  meets (required keys) (Value.obj fs) = all (has_field fs) keys
  meets (properties ps) (Value.obj fs) = all (λ kv. allows ps kv.0 kv.1) (entries fs)
  meets (min_properties n) (Value.obj fs) = leb n (length (entries fs))
  meets (one_of s t) v =
      (conforms s v && not (conforms t v)) || (not (conforms s v) && conforms t v)
  meets _ _ = true

  pub allows : Properties → String → Value → Bool
  allows no_other k v = false
  allows (each_other s) k v = conforms s v
  allows (property name s rest) k v = elim (k === name) [
    | true ↦ conforms s v
    | false ↦ allows rest k v
  ]

unfoldable pub listed : List (String × Schema) → Properties → Properties
listed [] others = others
listed ((name, s) ∷ rest) others = property name s (listed rest others)

-- { type: 'object', required, additionalProperties: false, properties }
unfoldable pub closed : List String → List (String × Schema) → Schema
closed keys named =
    also (type (JsonType.object ∷ []))
      (also (required keys) (also (properties (listed named no_other)) any_value))

-- { type: 'object', additionalProperties: false, minProperties: 1, properties }
unfoldable pub partial : List (String × Schema) → Schema
partial named =
    also (type (JsonType.object ∷ []))
      (also (min_properties 1) (also (properties (listed named no_other)) any_value))

-- { type: 'array', items }
unfoldable pub array_of : Schema → Schema
array_of s = also (type (JsonType.array ∷ [])) (also (elements s) any_value)

unfoldable pub of_type : JsonType → Schema
of_type t = also (type (t ∷ [])) any_value

-- { type: 'string', minLength: 1 }
unfoldable pub non_empty : Schema
non_empty = also (type (JsonType.string ∷ [])) (also (min_length 1) any_value)

-- { type: 'string', enum }
unfoldable pub one_word : List String → Schema
one_word words = also (type (JsonType.string ∷ [])) (also (enum words) any_value)

-- { type: 'number', minimum: 0, maximum: 1 }
unfoldable pub fraction : Schema
fraction = also (type (JsonType.number ∷ [])) (also (minimum 0) (also (maximum 1) any_value))

-- { type: 'integer', minimum: 2000, maximum: 2100 }
unfoldable pub year : Schema
year = also (type (JsonType.integer ∷ [])) (also (minimum 2000) (also (maximum 2100) any_value))
