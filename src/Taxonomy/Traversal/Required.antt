-- ===== src/Taxonomy/Traversal/Required.antt =====
-- The forms that a situation requires, as a relation, and the invariants of their traversal.
use mathlib.Core.List.{Memᴰ}
use tea_tax_product.Prelude.{String, ◌≡◌, ◌⊎◌, true, some, List}
use tea_tax_product.Prelude.Enum.{string_eq, In, Distinct}
use tea_tax_product.TaxSituation.{TaxSituation}
use tea_tax_product.Taxonomy.Types.{FormDefinition}
use tea_tax_product.Taxonomy.Trigger.{is_triggered}
use tea_tax_product.Taxonomy.Traversal.{Search, find_form}

module _ (s : TaxSituation) (taxonomy : List FormDefinition) where
  -- A form is required if its rules trigger it, or if a required form depends on it.
  pub data Required : String → Type 0 where
    triggered :
        {x : String} (form : FormDefinition)
        → Memᴰ form taxonomy
        → is_triggered form s ≡ true
        → form.form_id ≡ x
        → Required x
    dependency :
        {x : String} (y : String) (form : FormDefinition)
        → Required y
        → find_form taxonomy y ≡ some form
        → In x form.dependencies
        → Required x

  -- Every dependency of `x` is required.
  abbrev pub Closed : List String → String → Type 0
  Closed required x =
      (form : FormDefinition) (d : String)
      → find_form taxonomy x ≡ some form
      → In d form.dependencies
      → In d required

  -- What the queue and the collected ids of a walk satisfy.
  pub record WalkInv (required queue : List String) : Type 0 where
    pub queued : (x : String) → In x queue → In x required
    pub settled : (x : String) → In x required → In x queue ⊎ Closed required x
    pub sound : (x : String) → In x required → Required x
    pub distinct : Distinct required

  -- What `seed` collects from the forms that it has read.
  pub record SeedInv (w : Search) : Type 0 where
    pub both : w.queue ≡ w.required
    pub sound : (x : String) → In x w.required → Required x
    pub distinct : Distinct w.required
