-- ===== src/Schema/Reading.antt =====
-- How a schema reads the values of TaxSituation/Values: arrays, optional properties and words.
use tea_tax_product.Prelude.{
  ◌≡◌, refl, String, Bool, true, false, ◌&&◌, Option, none, some, List, [], ◌∷◌, all, Bool-cases,
  inl, inr, arith, ap, ◌∙◌, ◌∙◌,
}
use tea_tax_product.Prelude.Enum.{In, string_eq, ◌===◌}
use tea_tax_product.Js.{Value, Fields, end, field, get_field, obj, str, items}
use tea_tax_product.TaxSituation.Values.{array, values, optional}
use tea_tax_product.Schema.{
  Schema, Properties, conforms, allows, entries, has_field, array_of, one_word, closed, listed,
  no_other,
}

module _ {ℓ} {A : Type ℓ} where
  -- What a test says of an optional value: nothing, when it is absent.
  abbrev pub if_given : (A → Bool) → Option A → Bool
  if_given p none = true
  if_given p (some x) = p x

  -- The value is there, and passes the test.
  abbrev pub if_there : (A → Bool) → Option A → Bool
  if_there p none = false
  if_there p (some x) = p x

  pub all_ext : (p q : A → Bool) (xs : List A) → ((x : A) → p x ≡ q x) → all p xs ≡ all q xs
  unfolding all
  all_ext p q [] h = refl
  all_ext p q (x ∷ xs) h = ground (arith, h x, all_ext p q xs h)

  pub if_given_ext :
      (p q : A → Bool) (o : Option A) → ((x : A) → p x ≡ q x) → if_given p o ≡ if_given q o
  if_given_ext p q none h = refl
  if_given_ext p q (some x) h = h x

  pub all_of_true : (p : A → Bool) (xs : List A) → ((x : A) → p x ≡ true) → all p xs ≡ true
  unfolding all
  all_of_true p [] h = refl
  all_of_true p (x ∷ xs) h = ground (arith, h x, all_of_true p xs h)

  all-values :
      (s : Schema) (f : A → Value) (xs : List A)
      → all (λ v. conforms s v) (items (tea_tax_product.Js.to_items (values f xs)))
        ≡ all (λ x. conforms s (f x)) xs
  unfolding all items tea_tax_product.Js.to_items values
  all-values s f [] = refl
  all-values s f (x ∷ xs) = ap (λ b. conforms s (f x) && b) (all-values s f xs)

-- The verdict on a property, on the properties of an object, and on a value. As records they name what
-- they are about, so that a proof writes none of it.
pub record Allows (ps : Properties) (name : String) (v : Value) (b : Bool) : Type 0 where
  pub verdict : allows ps name v ≡ b

pub record Fits (ps : Properties) (fs : Fields) (b : Bool) : Type 0 where
  pub verdict : all (λ kv. allows ps kv.0 kv.1) (entries fs) ≡ b

pub record Reads (s : Schema) (v : Value) (b : Bool) : Type 0 where
  pub verdict : conforms s v ≡ b

-- All keys are there.
pub record Required (keys : List String) (fs : Fields) : Type 0 where
  pub verdict : all (has_field fs) keys ≡ true

-- A property that the object has.
pub record Has (fs : Fields) (key : String) : Type 0 where
  pub verdict : has_field fs key ≡ true

pub Has-field :
    {name key : String} {v : Value} {rest : Fields} → Has rest key → Has (field name v rest) key
unfolding has_field get_field
Has-field {name} {key} h = elim (Bool-cases (name === key)) [
  | inl e ↦ record { verdict = rw (e, has_field, get_field) refl }
  | inr e ↦ record { verdict = rw (e, has_field, get_field) h.verdict }
]

pub Has-optional {ℓ} :
    {A : Type ℓ} {key : String} {rest : Fields} (name : String) (f : A → Value) (o : Option A)
    → Has rest key
    → Has (optional name f o rest) key
unfolding optional
Has-optional name f none h = h
Has-optional name f (some x) h = Has-field h

pub Required-end : {fs : Fields} → Required [] fs
unfolding all
Required-end = record { verdict = refl }

pub Required-cons :
    {key : String} {keys : List String} {fs : Fields}
    → Has fs key
    → Required keys fs
    → Required (key ∷ keys) fs
unfolding all
Required-cons h e = record { verdict = rw (h.verdict, e.verdict) refl }

pub Fits-end : {ps : Properties} → Fits ps end true
unfolding entries all
Fits-end = record { verdict = refl }

pub Fits-field :
    {ps : Properties} {name : String} {v : Value} {rest : Fields} {b c : Bool}
    → Allows ps name v b
    → Fits ps rest c
    → Fits ps (field name v rest) (b && c)
unfolding entries all
Fits-field h e = record { verdict = rw (h.verdict, e.verdict) refl }

module _ {ℓ} {A : Type ℓ} where
  pub Fits-optional :
      {ps : Properties} {name : String} {f : A → Value} {rest : Fields} {p : A → Bool} {c : Bool}
      (o : Option A)
      → ((x : A) → Allows ps name (f x) (p x))
      → Fits ps rest c
      → Fits ps (optional name f o rest) (if_given p o && c)
  unfolding optional entries all
  Fits-optional none h e = e
  Fits-optional (some x) h e = record { verdict = rw ((h x).verdict, e.verdict) refl }

  pub Fits-optional_any :
      {ps : Properties} {name : String} {f : A → Value} {rest : Fields} {c : Bool} (o : Option A)
      → ((x : A) → Allows ps name (f x) true)
      → Fits ps rest c
      → Fits ps (optional name f o rest) c
  unfolding optional entries all
  Fits-optional_any none h e = e
  Fits-optional_any (some x) h e = record { verdict = rw ((h x).verdict, e.verdict) refl }

-- An object with the required properties conforms if those it has are allowed.
pub Reads-closed :
    {keys : List String} {fs : Fields} {c : Bool} (named : List (String × Schema))
    → Required keys fs
    → Fits (listed named no_other) fs c
    → Reads (closed keys named) (obj fs) c
unfolding conforms closed tea_tax_product.Schema.is_type tea_tax_product.Prelude.any
Reads-closed named h e = record { verdict = ground (arith, h.verdict, e.verdict) }

pub allows-Reads :
    {ps : Properties} {name : String} {s : Schema} {v : Value} {b : Bool}
    → allows ps name v ≡ conforms s v
    → Reads s v b
    → Allows ps name v b
allows-Reads e r = record { verdict = e ∙ r.verdict }

pub Fits-same : {ps : Properties} {fs : Fields} {b c : Bool} → Fits ps fs b → b ≡ c → Fits ps fs c
Fits-same r e = record { verdict = r.verdict ∙ e }

pub Reads-same : {s : Schema} {v : Value} {b c : Bool} → Reads s v b → b ≡ c → Reads s v c
Reads-same r e = record { verdict = r.verdict ∙ e }

module _ {ℓ} {A : Type ℓ} where
  -- An array conforms if each of its elements does.
  pub Reads-array :
      {s : Schema} {f : A → Value} {p : A → Bool} (xs : List A)
      → ((x : A) → Reads s (f x) (p x))
      → Reads (array_of s) (array f xs) (all p xs)
  unfolding conforms array_of array tea_tax_product.Schema.is_type tea_tax_product.Prelude.any
  Reads-array {s} {f} {p} xs h = record {
    verdict =
        ground
          (arith, all-values s f xs, all_ext (λ x. conforms s (f x)) p xs (λ x. (h x).verdict));
  }

pub Reads-word :
    (words : List String) {s : String} → In s words → Reads (one_word words) (str s) true
unfolding conforms one_word tea_tax_product.Schema.is_type tea_tax_product.Prelude.any
Reads-word words h = record { verdict = rw h refl }
