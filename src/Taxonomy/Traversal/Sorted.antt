-- ===== src/Taxonomy/Traversal/Sorted.antt =====
-- The sort at the end of the traversal: sorted, and with the same elements.
use Prim.Native.Nat.{Ordering}
use Prim.Native.String.{compare}
use Prim.Native.String.compare
use tea_tax_product.Prelude.{
  String, ◌≡◌, refl, ◌↔◌, true, false, ◌||◌, some, List, [], ◌∷◌, arith, Bool-cases, inl, inr,
}
use tea_tax_product.Prelude.Enum.{includes, string_eq, In, Distinct, includes-cons}
use tea_tax_product.Taxonomy.Traversal.{before, insert_sorted, sort, collect, get_required_forms}
use tea_tax_product.Taxonomy.Traversal.Closure.{collect_closure}
use tea_tax_product.Taxonomy.Traversal.Required.{Required}
use tea_tax_product.Taxonomy.Types.{FormDefinition}
use tea_tax_product.TaxSituation.{TaxSituation}

compare-gt : (a b : String) → compare a b ≡ Ordering.gt → compare b a ≡ Ordering.lt
compare-gt String.[] String.[] h = cc compare.nil-nil
compare-gt String.[] (String.◌∷◌ d t) h = cc (compare.nil-cons d t)
compare-gt (String.◌∷◌ c s) String.[] h = compare.nil-cons c s
compare-gt (String.◌∷◌ c s) (String.◌∷◌ d t) h =
    ground (arith, compare.cons-cons c d s t, compare.cons-cons d c t s, compare-gt s t)

-- Two texts are in order one way or the other.
before_total : (a b : String) → before a b ≡ false → before b a ≡ true
unfolding before
before_total a b h = ground (arith, compare-gt a b)

includes-insert_sorted :
    (x : String) (xs : List String) (y : String)
    → includes (insert_sorted x xs) y ≡ (string_eq.test x y || includes xs y)
unfolding insert_sorted
includes-insert_sorted x [] y = ground (arith, includes-cons x [] y)
includes-insert_sorted x (z ∷ zs) y = ground (
  arith,
  includes-cons x (z ∷ zs) y,
  includes-cons z zs y,
  includes-cons z (insert_sorted x zs) y,
  includes-insert_sorted x zs y,
)

pub includes-sort : (xs : List String) (y : String) → includes (sort xs) y ≡ includes xs y
unfolding sort
includes-sort [] y = refl
includes-sort (x ∷ xs) y =
    ground (arith, includes-insert_sorted x (sort xs) y, includes-sort xs y, includes-cons x xs y)

-- Each element is before the next, or equal to it.
abbrev pub IsSorted : List String → Type 0
IsSorted [] = Unit
IsSorted (x ∷ []) = Unit
IsSorted (x ∷ y ∷ ys) = (before x y ≡ true) × IsSorted (y ∷ ys)

insert_sorted-cons :
    (x y : String) (ys : List String)
    → before y x ≡ true
    → IsSorted (y ∷ ys)
    → IsSorted (insert_sorted x ys)
    → IsSorted (y ∷ insert_sorted x ys)
unfolding insert_sorted
insert_sorted-cons x y [] h s i = (h, tt)
insert_sorted-cons x y (z ∷ zs) h s i = ground arith

IsSorted-tail : (y : String) (ys : List String) → IsSorted (y ∷ ys) → IsSorted ys
IsSorted-tail y [] h = tt
IsSorted-tail y (z ∷ zs) h = h.1

insert-front :
    (x y : String) (ys : List String) → before x y ≡ true → insert_sorted x (y ∷ ys) ≡ x ∷ y ∷ ys
unfolding insert_sorted
insert-front x y ys h = ground arith

insert-behind :
    (x y : String) (ys : List String)
    → before x y ≡ false
    → insert_sorted x (y ∷ ys) ≡ y ∷ insert_sorted x ys
unfolding insert_sorted
insert-behind x y ys h = ground arith

insert_sorted-IsSorted :
    (x : String) (xs : List String) → IsSorted xs → IsSorted (insert_sorted x xs)
insert_sorted-IsSorted x [] h = unfold insert_sorted in tt
insert_sorted-IsSorted x (y ∷ ys) h = elim (Bool-cases (before x y)) [
  | inl front ↦ rw (insert-front x y ys front) (front, h)
  | inr behind ↦ rw (insert-behind x y ys behind) (
      insert_sorted-cons x y ys (before_total x y behind) h
        (insert_sorted-IsSorted x ys (IsSorted-tail y ys h)))
]

pub sort-IsSorted : (xs : List String) → IsSorted (sort xs)
unfolding sort
sort-IsSorted [] = tt
sort-IsSorted (x ∷ xs) = insert_sorted-IsSorted x (sort xs) (sort-IsSorted xs)

insert_sorted-Distinct :
    (x : String) (xs : List String)
    → includes xs x ≡ false
    → Distinct xs
    → Distinct (insert_sorted x xs)
insert_sorted-Distinct x [] h d = unfold insert_sorted in (h, tt)
insert_sorted-Distinct x (y ∷ ys) h d = elim (Bool-cases (before x y)) [
  | inl front ↦ rw (insert-front x y ys front) (h, d)
  | inr behind ↦ rw (insert-behind x y ys behind) (
      ground (
        arith,
        insert_sorted-Distinct x ys,
        includes-insert_sorted x ys y,
        includes-cons y ys x,
        string_eq.test_iff x y,
        string_eq.test_iff y x,
      ))
]

pub sort-Distinct : (xs : List String) → Distinct xs → Distinct (sort xs)
unfolding sort
sort-Distinct [] d = tt
sort-Distinct (x ∷ xs) d =
    insert_sorted-Distinct x (sort xs) (rw (includes-sort xs x) d.0) (sort-Distinct xs d.1)

get_required_forms-sort :
    (s : TaxSituation) (taxonomy : List FormDefinition) (ids : List String)
    → collect s taxonomy ≡ some ids
    → get_required_forms s taxonomy ≡ sort ids
unfolding get_required_forms
get_required_forms-sort s taxonomy ids e = ground arith

-- `getRequiredForms` returns the closure of the triggered forms, sorted, each id once.
pub get_required_forms_lem :
    (s : TaxSituation) (taxonomy : List FormDefinition)
    → IsSorted (get_required_forms s taxonomy)
      × Distinct (get_required_forms s taxonomy)
      × ((x : String) → In x (get_required_forms s taxonomy) ↔ Required s taxonomy x)
get_required_forms_lem s taxonomy =
    let (ids, total, distinct, closure) = collect_closure s taxonomy in
    rw (get_required_forms-sort s taxonomy ids total)
      (sort-IsSorted ids, sort-Distinct ids distinct, λ x. rw (includes-sort ids x) (closure x))
