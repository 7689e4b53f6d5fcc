-- ===== src/Taxonomy/Traversal/Closure.antt =====
-- `collect` computes the closure of the triggered forms under the dependencies.
use mathlib.Core.List.{Memᴰ}
use tea_tax_product.Prelude.{String, ◌≡◌, refl, ◌↔◌, inl, inr, true, some, List, []}
use tea_tax_product.Prelude.Enum.{string_eq, In, Distinct, includes-nil}
use tea_tax_product.TaxSituation.{TaxSituation}
use tea_tax_product.Taxonomy.Types.{FormDefinition}
use tea_tax_product.Taxonomy.Trigger.{is_triggered}
use tea_tax_product.Taxonomy.Traversal.{Search, seed, walk_fuel, collect}
use tea_tax_product.Taxonomy.Traversal.Fuel.{collect_total}
use tea_tax_product.Taxonomy.Traversal.Required.{Required, WalkInv, SeedInv, triggered, dependency}
use tea_tax_product.Taxonomy.Traversal.Rounds.{walk_lem}
use tea_tax_product.Taxonomy.Traversal.Seeds.{seed_lem}

module _ (s : TaxSituation) (taxonomy : List FormDefinition) where
  -- A required id is among the ids of a finished walk.
  complete :
      (ids : List String)
      → WalkInv s taxonomy ids []
      → ((form : FormDefinition)
          → Memᴰ form taxonomy
          → is_triggered form s ≡ true
          → In form.form_id ids)
      → {x : String} → Required s taxonomy x
      → In x ids
  complete ids inv seeds (triggered form m t e) = rw (← e) (seeds form m t)
  complete ids inv seeds {x} (dependency y form r found i) =
      elim (inv.settled y (complete ids inv seeds r)) [
        | inl q ↦ cc (includes-nil y)
        | inr closed ↦ closed form x found i
      ]

  -- The traversal returns every required id once, and nothing else.
  pub collect_closure :
      (ids : List String) × (collect s taxonomy ≡ some ids)
      × Distinct ids
      × ((x : String) → In x ids ↔ Required s taxonomy x)
  collect_closure = (
    ids,
    total.1,
    walked.0.distinct,
    λ x. (
      walked.0.sound x,
      complete ids walked.0 (λ form m t. walked.1 form.form_id (seeded.2 form m t)),
    ),
  )
    where
      ids : List String
      ids = (collect_total s taxonomy).0

      total : (xs : List String) × (collect s taxonomy ≡ some xs)
      total = collect_total s taxonomy

      w : Search
      w = seed s (record { required = []; queue = [] }) taxonomy

      empty : SeedInv s taxonomy (record { required = []; queue = [] })
      empty = record { both = refl; sound = λ x h. cc (includes-nil x); distinct = tt }

      seeded :
          SeedInv s taxonomy w
          × ((x : String) → In x [] → In x w.required)
          × ((form : FormDefinition)
              → Memᴰ form taxonomy
              → is_triggered form s ≡ true
              → In form.form_id w.required)
      seeded = seed_lem s taxonomy (record { required = []; queue = [] }) taxonomy (λ g m. m) empty

      start : WalkInv s taxonomy w.required w.queue
      start = record {
        queued = λ x h. rw seeded.0.both at h;
        settled = λ x h. inl (rw seeded.0.both h);
        sound = seeded.0.sound;
        distinct = seeded.0.distinct;
      }

      walked : WalkInv s taxonomy ids [] × ((x : String) → In x w.required → In x ids)
      walked =
          walk_lem s taxonomy (walk_fuel taxonomy w) w.required w.queue ids start
            (unfold collect in total.1)
