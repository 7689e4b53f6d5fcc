-- ===== src/Schema/Readable.antt =====
-- What a value that a schema accepts is known to hold.
use tea_tax_product.Prelude.{
  ◌≡◌, ◌≢◌, refl, String, Bool, true, false, ◌&&◌, ◌||◌, Option, none, some, List, [], ◌∷◌, all,
  arith, Option-cases, inl, inr, sym, ◌∙◌,
}
use tea_tax_product.Prelude.Enum.{string_eq, includes, includes-cons, includes-nil}
use tea_tax_product.Js.{
  Value, null, bool, num, str, obj, arr, Fields, end, field, get_field, property,
}
use tea_tax_product.Schema.Reading.{if_given, if_there, Reads}
use tea_tax_product.Schema.{
  has_field, Schema, Keyword, Properties, conforms, meets, allows, entries, also, type, JsonType,
  is_type, properties, closed, partial, required, min_properties, listed, no_other, any_value,
}

-- A property of an object whose properties are all allowed is allowed.
pub all-allows :
    (ps : Properties) (fs : Fields) (key : String) (w : Value)
    → all (λ kv. allows ps kv.0 kv.1) (entries fs) ≡ true
    → get_field fs key ≡ some w
    → allows ps key w ≡ true
unfolding all entries get_field
all-allows ps end key w h g = ground arith
all-allows ps (field k v rest) key w h g =
    ground (arith, all-allows ps rest key w, string_eq.test_iff k key)

third_true : (a b : Bool) → ((true || false) && (a && (b && true))) ≡ true → b ≡ true
third_true a b h = ground arith

-- A schema of objects with `properties` in second place after `type`: the keyword `k` between them.
pub conforms-property :
    (k : Keyword) (ps : Properties) (v : Value) (key : String) (w : Value)
    → conforms (also (type (JsonType.object ∷ [])) (also k (also (properties ps) any_value))) v
      ≡ true
    → property v key ≡ some w
    → allows ps key w ≡ true
unfolding conforms is_type property tea_tax_product.Prelude.any
conforms-property k ps (obj fs) key w h g =
    all-allows ps fs key w (third_true (meets k (obj fs)) _ h) g
conforms-property k ps (arr vs) key w h g = ground arith
conforms-property k ps (str s) key w h g = ground arith
conforms-property k ps (num n) key w h g = ground arith
conforms-property k ps (bool b) key w h g = ground arith
conforms-property k ps null key w h g = ground arith

-- So what an accepted object has at the key conforms to the schema that the key is given.
pub conforms-given :
    (k : Keyword) (ps : Properties) (v : Value) (key : String) (s : Schema)
    → conforms (also (type (JsonType.object ∷ [])) (also k (also (properties ps) any_value))) v
      ≡ true
    → ((w : Value) → allows ps key w ≡ conforms s w)
    → if_given (λ w. conforms s w) (property v key) ≡ true
conforms-given k ps v key s h e = elim (Option-cases (property v key)) [
  | inl n ↦ rw n refl
  | inr p ↦ rw p.1 (sym (e p.0) ∙ conforms-property k ps v key p.0 h p.1)
]

closed-property :
    (keys : List String) (named : List (String × Schema)) (v : Value) (key : String) (s : Schema)
    → conforms (closed keys named) v ≡ true
    → ((w : Value) → allows (listed named no_other) key w ≡ conforms s w)
    → if_given (λ w. conforms s w) (property v key) ≡ true
unfolding closed
closed-property keys named v key s h e =
    conforms-given (required keys) (listed named no_other) v key s h e

partial-property :
    (named : List (String × Schema)) (v : Value) (key : String) (s : Schema)
    → conforms (partial named) v ≡ true
    → ((w : Value) → allows (listed named no_other) key w ≡ conforms s w)
    → if_given (λ w. conforms s w) (property v key) ≡ true
unfolding partial
partial-property named v key s h e =
    conforms-given (min_properties 1) (listed named no_other) v key s h e

pub closed-given :
    (keys : List String) (named : List (String × Schema)) {v : Value} (key : String) (s : Schema)
    → Reads (closed keys named) v true
    → ((w : Value) → allows (listed named no_other) key w ≡ conforms s w)
    → if_given (λ w. conforms s w) (property v key) ≡ true
closed-given keys named {v} key s r e = closed-property keys named v key s r.verdict e

all-includes :
    (p : String → Bool) (keys : List String) (key : String)
    → all p keys ≡ true
    → includes keys key ≡ true
    → p key ≡ true
unfolding all
all-includes p [] key h i = ground (arith, includes-nil key)
all-includes p (k ∷ keys) key h i =
    ground (arith, all-includes p keys key, includes-cons k keys key, string_eq.test_iff k key)

has_field-none : (fs : Fields) (key : String) → has_field fs key ≡ true → get_field fs key ≢ none
unfolding has_field
has_field-none fs key h e = ground (arith, e)

-- An object with all the keys has a value at each.
conforms-required :
    (keys : List String) (ps : Properties) (v : Value) (key : String)
    → conforms
        (also (type (JsonType.object ∷ [])) (also (required keys) (also (properties ps) any_value)))
        v
      ≡ true
    → includes keys key ≡ true
    → property v key ≢ none
unfolding conforms is_type property tea_tax_product.Prelude.any
conforms-required keys ps (obj fs) key h i =
    has_field-none fs key (all-includes (has_field fs) keys key (ground arith) i)
conforms-required keys ps (arr vs) key h i = absurd (ground arith)
conforms-required keys ps (str s) key h i = absurd (ground arith)
conforms-required keys ps (num n) key h i = absurd (ground arith)
conforms-required keys ps (bool b) key h i = absurd (ground arith)
conforms-required keys ps null key h i = absurd (ground arith)

-- What an object is required to have is there, and conforms.
pub closed-held :
    (keys : List String) (named : List (String × Schema)) (v : Value) (key : String) (s : Schema)
    → conforms (closed keys named) v ≡ true
    → includes keys key ≡ true
    → ((w : Value) → allows (listed named no_other) key w ≡ conforms s w)
    → if_there (λ w. conforms s w) (property v key) ≡ true
unfolding closed
closed-held keys named v key s h i e = elim (Option-cases (property v key)) [
  | inl n ↦ absurd (conforms-required keys (listed named no_other) v key h i n)
  | inr p ↦
      rw p.1
        (sym (e p.0) ∙ conforms-property (required keys) (listed named no_other) v key p.0 h p.1)
]

pub partial-given :
    (named : List (String × Schema)) {v : Value} (key : String) (s : Schema)
    → Reads (partial named) v true
    → ((w : Value) → allows (listed named no_other) key w ≡ conforms s w)
    → if_given (λ w. conforms s w) (property v key) ≡ true
partial-given named {v} key s r e = partial-property named v key s r.verdict e
