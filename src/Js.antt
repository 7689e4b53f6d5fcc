-- ===== src/Js.antt =====
-- Runtime values: what a TypeScript `unknown` can hold in this program. `undefined` is the absence of
-- a property.
use Prim.Native.Char.{code}
use tea_tax_product.Prelude.{
  ℕ, ◌+◌, leb, map, String, Bool, true, false, not, ◌&&◌, Option, none, some, List, [], ◌∷◌, length,
  if◌then◌else◌, ◌==◌,
}
use tea_tax_product.Prelude.Enum.{◌===◌, string_eq}
use tea_tax_product.Prelude.Int.{pos_part, neg_part}
use tea_tax_product.Prelude.Number.{Number, whole}

mutual
  -- The properties of an object, in order.
  pub data Fields : Type 0 where
    end : Fields
    field : String → Value → Fields → Fields

  -- The elements of an array.
  pub data Items : Type 0 where
    no_items : Items
    item : Value → Items → Items

  pub data Value : Type 0 where
    null : Value
    bool : Bool → Value
    num : Number → Value
    str : String → Value
    obj : Fields → Value
    arr : Items → Value

unfoldable pub items : Items → List Value
items no_items = []
items (item v vs) = v ∷ items vs

unfoldable pub to_items : List Value → Items
to_items [] = no_items
to_items (v ∷ vs) = item v (to_items vs)

-- `v === w`: an object or an array is equal only to itself, and no two places of this program hold the
-- same one.
unfoldable pub strict_eq : Value → Value → Bool
strict_eq null null = true
strict_eq (bool a) (bool b) = if a then b else not b
strict_eq (num a) (num b) = pos_part a == pos_part b && neg_part a == neg_part b
strict_eq (str a) (str b) = a === b
strict_eq _ _ = false

unfoldable pub get_field : Fields → String → Option Value
get_field end key = none
get_field (field k v rest) key = if k === key then some v else get_field rest key

-- `node[key]` for an object; of an array only `length` is read by name here, and no path of this
-- program names an index. `none` is `undefined`.
unfoldable pub property : Value → String → Option Value
unfolding get_field items
property (obj fs) key = get_field fs key
property (arr vs) key = if key === "length" then some (num (whole (length (items vs)))) else none
property _ key = none

-- The code points of a text, with the letters A to Z and the Kelvin sign in lower case: no other character
-- has an ASCII letter for its lower case, so this decides whether `x.toLowerCase()` is an ASCII word.
abbrev pub code_points : String → List ℕ
code_points String.[] = []
code_points (String.◌∷◌ c s) = code c ∷ code_points s

unfoldable pub lower : ℕ → ℕ
lower c = if leb b'A' c && leb c b'Z' then c + 32 else if c == 8490 then 107 else c

unfoldable pub same_codes : List ℕ → List ℕ → Bool
same_codes [] [] = true
same_codes (x ∷ xs) (y ∷ ys) = (x == y) && same_codes xs ys
same_codes _ _ = false

-- relationship.toLowerCase() === word
unfoldable pub lower_is : String → String → Bool
lower_is s word = same_codes (map lower (code_points s)) (code_points word)
