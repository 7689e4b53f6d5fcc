-- ===== src/Api/FieldLaws.antt =====
-- Reading the properties of an object after `set_field` and `optional`.
use tea_tax_product.Prelude.{◌≡◌, refl, String, false, Option, none, some, arith}
use tea_tax_product.Prelude.Enum.{◌===◌, string_eq}
use tea_tax_product.Js.{Value, Fields, end, field, get_field}
use tea_tax_product.TaxSituation.Values.{optional}
use tea_tax_product.Api.{set_field, set_given}

pub get_field-set_field :
    (fs : Fields) (key : String) (v : Value) → get_field (set_field fs key v) key ≡ some v
unfolding get_field set_field
get_field-set_field end key v = ground (arith, string_eq.test_iff key key)
get_field-set_field (field k w rest) key v =
    ground (arith, get_field-set_field rest key v, string_eq.test_iff k key)

pub get_field-set_field_other :
    (fs : Fields) (key other : String) (v : Value)
    → (key === other) ≡ false
    → get_field (set_field fs key v) other ≡ get_field fs other
unfolding get_field set_field
get_field-set_field_other end key other v h = ground (arith, h)
get_field-set_field_other (field k w rest) key other v h = ground (
  arith,
  get_field-set_field_other rest key other v h,
  string_eq.test_iff k key,
  string_eq.test_iff k other,
  string_eq.test_iff key other,
)

-- What a patch puts at a key: the value that it gives, or the one that was there.
abbrev pub or_kept : Option Value → Option Value → Option Value
or_kept none old = old
or_kept (some v) old = some v

pub get_field-set_given :
    (fs : Fields) (key : String) (o : Option Value)
    → get_field (set_given fs key o) key ≡ or_kept o (get_field fs key)
unfolding set_given
get_field-set_given fs key none = refl
get_field-set_given fs key (some v) = get_field-set_field fs key v

pub get_field-set_given_other :
    (fs : Fields) (key other : String) (o : Option Value)
    → (key === other) ≡ false
    → get_field (set_given fs key o) other ≡ get_field fs other
unfolding set_given
get_field-set_given_other fs key other none h = refl
get_field-set_given_other fs key other (some v) h = get_field-set_field_other fs key other v h

module _ {ℓ} {A : Type ℓ} where
  pub get_field-optional_other :
      (name : String) (f : A → Value) (o : Option A) (rest : Fields) (key : String)
      → (name === key) ≡ false
      → get_field (optional name f o rest) key ≡ get_field rest key
  unfolding optional get_field
  get_field-optional_other name f none rest key h = refl
  get_field-optional_other name f (some x) rest key h = rw (h, get_field) refl

-- An optional value that is put first at its key is what is read there.
pub get_field-optional :
    (name : String) (o : Option Value) (rest : Fields)
    → get_field rest name ≡ none
    → get_field (optional name (λ v. v) o rest) name ≡ o
unfolding optional get_field
get_field-optional name none rest h = h
get_field-optional name (some v) rest h = ground (arith, string_eq.test_iff name name)
