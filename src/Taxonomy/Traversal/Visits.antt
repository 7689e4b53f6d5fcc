-- ===== src/Taxonomy/Traversal/Visits.antt =====
-- What one round of the traversal adds: the ids that are new, in order, at the end of both collections.
use mathlib.Core.List.{append-nil, append_assoc}
use tea_tax_product.Prelude.{
  String, ◌≡◌, ◌∙◌, inl, inr, none, some, true, false, ◌||◌, List, [], ◌∷◌, ◌++◌, arith, Bool-cases,
}
use tea_tax_product.Prelude.Enum.{
  includes, string_eq, In, Distinct, includes-append, includes-cons, includes-nil, Distinct-concat,
}
use tea_tax_product.Taxonomy.Types.{FormDefinition}
use tea_tax_product.Taxonomy.Traversal.{visit, visit_all, find_form, expand_form}

unfoldable pub fresh : List String → List String → List String
fresh required [] = []
fresh required (id ∷ ids) = elim (includes required id) [
  | true ↦ fresh required ids
  | false ↦ id ∷ fresh (required ++ id ∷ []) ids
]

pub fresh-old :
    (required ids : List String) (id : String)
    → includes required id ≡ true
    → fresh required (id ∷ ids) ≡ fresh required ids
unfolding fresh
fresh-old required ids id old = ground arith

pub fresh-new :
    (required ids : List String) (id : String)
    → includes required id ≡ false
    → fresh required (id ∷ ids) ≡ id ∷ fresh (required ++ id ∷ []) ids
unfolding fresh
fresh-new required ids id new = ground arith

pub visit_all-fresh :
    (required queue ids : List String)
    → visit_all (record { required = required; queue = queue }) ids
      ≡ record { required = required ++ fresh required ids; queue = queue ++ fresh required ids }
unfolding visit_all
visit_all-fresh required queue [] = unfold fresh in simp append-nil
visit_all-fresh required queue (id ∷ ids) = elim (Bool-cases (includes required id)) [
  | inl old ↦ rw (fresh-old required ids id old, old, visit) (visit_all-fresh required queue ids)
  | inr new ↦
      rw (fresh-new required ids id new, new, visit)
        (visit_all-fresh (required ++ id ∷ []) (queue ++ id ∷ []) ids ∙ simp append_assoc)
]

pub fresh-In : (required ids : List String) (x : String) → In x (fresh required ids) → In x ids
unfolding fresh
fresh-In required [] x h = h
fresh-In required (id ∷ ids) x h = ground (
  arith,
  fresh-In required ids x,
  fresh-In (required ++ id ∷ []) ids x,
  includes-cons id ids x,
  includes-cons id (fresh (required ++ id ∷ []) ids) x,
)

pub In-fresh :
    (required ids : List String) (x : String)
    → (includes required x || includes ids x) ≡ true
    → In x (required ++ fresh required ids)
In-fresh required [] x h =
    unfold fresh in ground (arith, includes-nil x, includes-append required [] x)
In-fresh required (id ∷ ids) x h = elim (Bool-cases (includes required id)) [
  | inl old ↦
      rw (fresh-old required ids id old)
        (ground (arith, In-fresh required ids x, includes-cons id ids x, string_eq.test_iff id x))
  | inr new ↦
      let later : In x ((required ++ id ∷ []) ++ fresh (required ++ id ∷ []) ids) = ground (
        arith,
        In-fresh (required ++ id ∷ []) ids x,
        includes-append required (id ∷ []) x,
        includes-cons id ids x,
        includes-cons id [] x,
        includes-nil x,
      ) in
      rw (fresh-new required ids id new) (rw append_assoc at later)
]

pub Distinct-fresh :
    (required ids : List String) → Distinct required → Distinct (required ++ fresh required ids)
Distinct-fresh required [] d = unfold fresh in rw append-nil d
Distinct-fresh required (id ∷ ids) d = elim (Bool-cases (includes required id)) [
  | inl old ↦ rw (fresh-old required ids id old) (Distinct-fresh required ids d)
  | inr new ↦ rw (fresh-new required ids id new) (
      rw append_assoc at
        (Distinct-fresh (required ++ id ∷ []) ids (Distinct-concat required id d new)))
]

module _ (taxonomy : List FormDefinition) (required queue : List String) (id : String) where
  pub expand_form-missed :
      find_form taxonomy id ≡ none
      → expand_form taxonomy (record { required = required; queue = queue }) id
        ≡ record { required = required; queue = queue }
  unfolding expand_form
  expand_form-missed h = ground arith

  pub expand_form-found :
      (form : FormDefinition)
      → find_form taxonomy id ≡ some form
      → expand_form taxonomy (record { required = required; queue = queue }) id ≡ record {
        required = required ++ fresh required form.dependencies;
        queue = queue ++ fresh required form.dependencies;
      }
  unfolding expand_form
  expand_form-found form h = ground (arith, visit_all-fresh required queue form.dependencies)
