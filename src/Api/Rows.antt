-- ===== src/Api/Rows.antt =====
-- Finding rows after the writes of Api.
use tea_tax_product.Prelude.{
  ◌≡◌, refl, ℕ, String, true, false, ◌&&◌, some, List, [], ◌∷◌, arith, Option-cases, inl, inr,
}
use tea_tax_product.Prelude.Enum.{◌===◌, string_eq}
use tea_tax_product.Js.{Value, null, bool, num, str, obj, arr, Fields, strict_eq, get_field}
use tea_tax_product.Api.{
  Entity, is_row, select_row, update_entities, owned_object, return_of, text_is,
}

-- A row that the update does not name is found as before.
pub select_row-update_entities :
    (id type : String) (fs : Fields) (now : ℕ) (id2 type2 : String) (es : List Entity)
    → (id === id2 && type === type2) ≡ false
    → select_row id2 type2 (update_entities id type fs now es) ≡ select_row id2 type2 es
unfolding select_row update_entities is_row
select_row-update_entities id type fs now id2 type2 [] h = refl
select_row-update_entities id type fs now id2 type2 (e ∷ es) h = ground (
  arith,
  select_row-update_entities id type fs now id2 type2 es h,
  string_eq.test_iff e.id id,
  string_eq.test_iff e.id id2,
  string_eq.test_iff e.type type,
  string_eq.test_iff e.type type2,
  string_eq.test_iff id id2,
  string_eq.test_iff type type2,
)

pub select_row-cons :
    (id type : String) (e : Entity) (es : List Entity)
    → (id === e.id) ≡ false
    → select_row id type (e ∷ es) ≡ select_row id type es
unfolding select_row is_row
select_row-cons id type e es h =
    ground (arith, string_eq.test_iff e.id id, string_eq.test_iff id e.id)

-- What the row of an own tax object, or of a tax return under an object, is.
pub owned_object-some :
    (user id : String) (es : List Entity) (e : Entity)
    → owned_object user id es ≡ some e
    → (select_row id "tax_object" es ≡ some e)
      × (text_is e.properties "created_by_user_id" user ≡ true)
unfolding owned_object
owned_object-some user id es e h = ground arith

pub return_of-some :
    (object_id id : String) (es : List Entity) (e : Entity)
    → return_of object_id id es ≡ some e
    → (select_row id "tax_return" es ≡ some e)
      × (text_is e.properties "tax_object_id" object_id ≡ true)
unfolding return_of
return_of-some object_id id es e h = ground arith

-- A stored text is one text.
pub strict_eq-str :
    (v : Value) (a b : String) → strict_eq v (str a) ≡ true → strict_eq v (str b) ≡ true → a ≡ b
unfolding strict_eq
strict_eq-str (str s) a b h k = ground (arith, string_eq.test_iff s a, string_eq.test_iff s b)
strict_eq-str null a b h k = ground arith
strict_eq-str (bool v) a b h k = ground arith
strict_eq-str (num n) a b h k = ground arith
strict_eq-str (obj fs) a b h k = ground arith
strict_eq-str (arr vs) a b h k = ground arith

pub text_is_inj :
    (fs : Fields) (key a b : String) → text_is fs key a ≡ true → text_is fs key b ≡ true → a ≡ b
unfolding text_is
text_is_inj fs key a b h k = elim (Option-cases (get_field fs key)) [
  | inl e ↦ ground (arith, e)
  | inr p ↦ ground (arith, p.1, strict_eq-str p.0 a b)
]
