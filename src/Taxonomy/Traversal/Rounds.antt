-- ===== src/Taxonomy/Traversal/Rounds.antt =====
-- The rounds of the loop of `getRequiredForms` keep its invariant.
use tea_tax_product.Prelude.{
  ℕ, zero, suc, String, ◌≡◌, ap, ◌⊎◌, inl, inr, none, some, List, [], ◌∷◌, ◌++◌, arith, Bool-cases,
  Option-cases,
}
use tea_tax_product.Prelude.Enum.{includes, string_eq, In, includes-append, includes-cons}
use tea_tax_product.TaxSituation.{TaxSituation}
use tea_tax_product.Taxonomy.Types.{FormDefinition}
use tea_tax_product.Taxonomy.Traversal.{find_form, expand_form, walk}
use tea_tax_product.Taxonomy.Traversal.Visits.{
  fresh, fresh-In, In-fresh, Distinct-fresh, expand_form-missed, expand_form-found,
}
use tea_tax_product.Taxonomy.Traversal.Required.{Required, Closed, WalkInv, dependency}

module _ (s : TaxSituation) (taxonomy : List FormDefinition) where
  Closed-mono :
      (required new : List String) (x : String)
      → Closed s taxonomy required x
      → Closed s taxonomy (required ++ new) x
  Closed-mono required new x c form d e i =
      ground (arith, includes-append required new d, c form d e i)

  settled-missed :
      (required rest : List String) (id x : String)
      → find_form taxonomy id ≡ none
      → In x (id ∷ rest) ⊎ Closed s taxonomy required x
      → In x rest ⊎ Closed s taxonomy required x
  settled-missed required rest id x missed (inr c) = inr c
  settled-missed required rest id x missed (inl h) = elim (Bool-cases (string_eq.test id x)) [
    | inl same ↦
        let e : id ≡ x = (string_eq.test_iff id x).0 same in
        inr (λ form d found i. cc (ap (find_form taxonomy) e))
    | inr other ↦ inl (ground (arith, includes-cons id rest x))
  ]

  settled-found :
      (required rest : List String) (id x : String) (form : FormDefinition)
      → find_form taxonomy id ≡ some form
      → let new = fresh required form.dependencies in
        In x (required ++ new)
        → (In x required → In x (id ∷ rest) ⊎ Closed s taxonomy required x)
        → In x (rest ++ new) ⊎ Closed s taxonomy (required ++ new) x
  settled-found required rest id x form found h settled =
      elim (Bool-cases (includes (fresh required form.dependencies) x)) [
        | inl added ↦
            inl (ground (arith, includes-append rest (fresh required form.dependencies) x))
        | inr not_new ↦ old (
            settled (ground (arith, includes-append required (fresh required form.dependencies) x)))
      ]
    where
      here : (id ≡ x) → Closed s taxonomy (required ++ fresh required form.dependencies) x
      here e f d g i =
          let same : form ≡ f = ground (arith, ap (find_form taxonomy) e) in
          In-fresh required form.dependencies d (rw same (ground arith))

      old :
          In x (id ∷ rest) ⊎ Closed s taxonomy required x
          → In x (rest ++ fresh required form.dependencies)
            ⊎ Closed s taxonomy (required ++ fresh required form.dependencies) x
      old (inr c) = inr (Closed-mono required (fresh required form.dependencies) x c)
      old (inl q) = elim (Bool-cases (string_eq.test id x)) [
        | inl same ↦ inr (here ((string_eq.test_iff id x).0 same))
        | inr other ↦ inl (
            ground (
              arith,
              includes-cons id rest x,
              includes-append rest (fresh required form.dependencies) x,
            ))
      ]

  sound-found :
      (required : List String) (id x : String) (form : FormDefinition)
      → find_form taxonomy id ≡ some form
      → Required s taxonomy id
      → (In x required → Required s taxonomy x)
      → In x (required ++ fresh required form.dependencies)
      → Required s taxonomy x
  sound-found required id x form found r old h = elim (Bool-cases (includes required x)) [
    | inl known ↦ old known
    | inr other ↦ dependency id form r found (
        fresh-In required form.dependencies x
          (ground (arith, includes-append required (fresh required form.dependencies) x)))
  ]

  -- One round keeps the invariant.
  expand_form-WalkInv :
      (required rest : List String) (id : String)
      → WalkInv s taxonomy required (id ∷ rest)
      → let w = expand_form taxonomy (record { required = required; queue = rest }) id in
        WalkInv s taxonomy w.required w.queue
  expand_form-WalkInv required rest id inv = elim (Option-cases (find_form taxonomy id)) [
    | inl missed ↦ rw (expand_form-missed taxonomy required rest id missed) (record {
      queued = λ x h. inv.queued x (ground (arith, includes-cons id rest x));
      settled = λ x h. settled-missed required rest id x missed (inv.settled x h);
      sound = inv.sound;
      distinct = inv.distinct;
    })
    | inr (form, found) ↦
        let new = fresh required form.dependencies in
        rw (expand_form-found taxonomy required rest id form found) (record {
          queued = λ x h. ground (
            arith,
            inv.queued x,
            includes-append rest new x,
            includes-append required new x,
            includes-cons id rest x,
          );
          settled = λ x h. settled-found required rest id x form found h (inv.settled x);
          sound = λ x.
              sound-found required id x form found
                (inv.sound id (
                  inv.queued id
                    (ground (arith, includes-cons id rest id, string_eq.test_iff id id))))
                (inv.sound x);
          distinct = Distinct-fresh required form.dependencies inv.distinct;
        })
  ]

  expand_form-grows :
      (required rest : List String) (id x : String)
      → In x required
      → In x (expand_form taxonomy (record { required = required; queue = rest }) id).required
  expand_form-grows required rest id x h = elim (Option-cases (find_form taxonomy id)) [
    | inl missed ↦ rw (expand_form-missed taxonomy required rest id missed) h
    | inr (form, found) ↦
        rw (expand_form-found taxonomy required rest id form found)
          (ground (arith, includes-append required (fresh required form.dependencies) x))
  ]

  -- What the walk returns keeps the invariant, with nothing queued, and all that was required.
  pub walk_lem :
      (fuel : ℕ) (required queue ids : List String)
      → WalkInv s taxonomy required queue
      → walk taxonomy fuel required queue ≡ some ids
      → WalkInv s taxonomy ids [] × ((x : String) → In x required → In x ids)
  unfolding walk
  walk_lem zero required queue ids inv h = cc
  walk_lem (suc fuel) required [] ids inv h =
      let same : required ≡ ids = ground arith in rw (← same) (inv, λ x i. i)
  walk_lem (suc fuel) required (id ∷ rest) ids inv h =
      let w = expand_form taxonomy (record { required = required; queue = rest }) id in
      let (done, kept) =
        walk_lem fuel w.required w.queue ids (expand_form-WalkInv required rest id inv) h in
      (done, λ x i. kept x (expand_form-grows required rest id x i))
