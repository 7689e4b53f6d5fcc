-- ===== src/Taxonomy/Traversal/Seeds.antt =====
-- What `getRequiredForms` collects before its loop.
use mathlib.Core.List.{Memᴰ, not-mem-nil}
use mathlib.Core.List.Memᴰ
use tea_tax_product.Prelude.{
  String, ◌≡◌, refl, ap, inl, inr, true, false, List, [], ◌∷◌, ◌++◌, arith, Bool-cases,
}
use tea_tax_product.Prelude.Enum.{
  includes, string_eq, In, includes-append, includes-cons, includes-nil, Distinct-concat,
}
use tea_tax_product.TaxSituation.{TaxSituation}
use tea_tax_product.Taxonomy.Types.{FormDefinition}
use tea_tax_product.Taxonomy.Trigger.{is_triggered}
use tea_tax_product.Taxonomy.Traversal.{Search, visit, seed}
use tea_tax_product.Taxonomy.Traversal.Required.{SeedInv, triggered}

module _ (s : TaxSituation) (taxonomy : List FormDefinition) where
  visit-SeedInv :
      (w : Search) (form : FormDefinition)
      → Memᴰ form taxonomy
      → is_triggered form s ≡ true
      → SeedInv s taxonomy w
      → SeedInv s taxonomy (visit w form.form_id)
  unfolding visit
  visit-SeedInv w form m t inv = elim (Bool-cases (includes w.required form.form_id)) [
    | inl old ↦ rw old inv
    | inr new ↦ rw new (record {
      both = ap (λ q. q ++ form.form_id ∷ []) inv.both;
      sound = λ x h. elim (Bool-cases (string_eq.test form.form_id x)) [
        | inl same ↦ triggered form m t ((string_eq.test_iff form.form_id x).0 same)
        | inr other ↦ inv.sound x (
            ground (
              arith,
              includes-append w.required (form.form_id ∷ []) x,
              includes-cons form.form_id [] x,
              includes-nil x,
            ))
      ];
      distinct = Distinct-concat w.required form.form_id inv.distinct new;
    })
  ]

  visit-grows : (w : Search) (id x : String) → In x w.required → In x (visit w id).required
  unfolding visit
  visit-grows w id x h = ground (arith, includes-append w.required (id ∷ []) x)

  visit-In : (w : Search) (id : String) → In id (visit w id).required
  unfolding visit
  visit-In w id = ground (
    arith,
    includes-append w.required (id ∷ []) id,
    includes-cons id [] id,
    string_eq.test_iff id id,
  )

  seed-hit :
      (w : Search) (f : FormDefinition) (fs : List FormDefinition)
      → is_triggered f s ≡ true
      → seed s w (f ∷ fs) ≡ seed s (visit w f.form_id) fs
  unfolding seed
  seed-hit w f fs t = rw t

  seed-miss :
      (w : Search) (f : FormDefinition) (fs : List FormDefinition)
      → is_triggered f s ≡ false
      → seed s w (f ∷ fs) ≡ seed s w fs
  unfolding seed
  seed-miss w f fs t = rw t

  -- The forms read so far are `forms`; what they trigger is collected.
  pub seed_lem :
      (w : Search) (forms : List FormDefinition)
      → ((form : FormDefinition) → Memᴰ form forms → Memᴰ form taxonomy)
      → SeedInv s taxonomy w
      → SeedInv s taxonomy (seed s w forms)
        × ((x : String) → In x w.required → In x (seed s w forms).required)
        × ((form : FormDefinition)
            → Memᴰ form forms
            → is_triggered form s ≡ true
            → In form.form_id (seed s w forms).required)
  seed_lem w [] sub inv = unfold seed in (inv, λ x h. h, λ form m t. absurd (not-mem-nil ∣ m ∣₁))
  seed_lem w (f ∷ fs) sub inv = elim (Bool-cases (is_triggered f s)) [
    | inl t ↦
        let (all, kept, found) =
          seed_lem (visit w f.form_id) fs (λ g m. sub g (Memᴰ.tail m))
            (visit-SeedInv w f (sub f (Memᴰ.head refl)) t inv) in
        rw (seed-hit w f fs t) (
          all,
          λ x h. kept x (visit-grows w f.form_id x h),
          λ g m u. elim (Memᴰ.cases_cons m) [
            | inl e ↦ rw e (kept f.form_id (visit-In w f.form_id))
            | inr later ↦ found g later u
          ],
        )
    | inr t ↦
        let (all, kept, found) = seed_lem w fs (λ g m. sub g (Memᴰ.tail m)) inv in
        rw (seed-miss w f fs t) (
          all,
          kept,
          λ g m u. elim (Memᴰ.cases_cons m) [
            | inl e ↦ cc (ap (λ f'. is_triggered f' s) e)
            | inr later ↦ found g later u
          ],
        )
  ]
