-- ===== src/Tier/Engine/Laws.antt =====
-- What `evaluate_provider` promises for any list of tiers: the first tier that no condition disqualifies
-- and that all its conditions qualify.
use tea_tax_product.Prelude.{
  String, ◌≡◌, refl, ap, ◌∙◌, ◌↔◌, Bool, true, false, Option, none, some, List, [], ◌∷◌, ◌++◌, not,
  ◌&&◌, any, all, arith, Bool-cases, Option-cases, inl, inr,
}
use mathlib.Core.List.{append_assoc, append-nil}
use tea_tax_product.TaxSituation.{TaxSituation, ProviderEvaluation}
use tea_tax_product.Tier.Types.{TierCondition, ProviderTier, ProviderDefinition}
use tea_tax_product.Tier.Engine.{
  disqualified, all_qualify, matched_conditions, place, evaluate_provider,
}

-- No disqualifying condition holds, and every qualifying condition does.
abbrev pub is_eligible : TaxSituation → ProviderTier → Bool
is_eligible s t =
    not (any (λ c. c.evaluate s) t.disqualifying_conditions)
    && all (λ c. c.evaluate s) t.qualifying_conditions

abbrev pub NoneEligible : TaxSituation → List ProviderTier → Type 0
NoneEligible s [] = Unit
NoneEligible s (t ∷ ts) = (is_eligible s t ≡ false) × NoneEligible s ts

-- One message for each tier that is disqualified, in order.
abbrev pub cons_some {ℓ} : {A : Type ℓ} → Option A → List A → List A
cons_some none xs = xs
cons_some (some x) xs = x ∷ xs

abbrev pub rejections : TaxSituation → List ProviderTier → List String
rejections s [] = []
rejections s (t ∷ ts) = cons_some (disqualified t s t.disqualifying_conditions) (rejections s ts)

disqualified-any :
    (t : ProviderTier) (s : TaxSituation) (cs : List TierCondition)
    → (disqualified t s cs ≡ none) ↔ (any (λ c. c.evaluate s) cs ≡ false)
unfolding disqualified any
disqualified-any t s [] = ground arith
disqualified-any t s (c ∷ cs) = ground (arith, disqualified-any t s cs)

eligible-disqualified :
    (s : TaxSituation) (t : ProviderTier) (m : String)
    → disqualified t s t.disqualifying_conditions ≡ some m
    → is_eligible s t ≡ false
eligible-disqualified s t m e = ground (arith, disqualified-any t s t.disqualifying_conditions)

-- What the loop returns at a tier, and at the end of the list.
abbrev pub evaluation_at :
    TaxSituation → ProviderDefinition → ProviderTier → List String → ProviderEvaluation
evaluation_at s p t rejected = record {
  provider_id = p.provider_id;
  provider_name = p.provider_name;
  matched_tier = some t.tier_name;
  federal_price = t.federal_price;
  state_price = t.state_price;
  matched_conditions = matched_conditions t s;
  disqualified_by = rejected;
}

abbrev pub evaluation_without : ProviderDefinition → List String → ProviderEvaluation
evaluation_without p rejected = record {
  provider_id = p.provider_id;
  provider_name = p.provider_name;
  matched_tier = none;
  federal_price = none;
  state_price = none;
  matched_conditions = [];
  disqualified_by = rejected;
}

pub data Placed (s : TaxSituation) (p : ProviderDefinition) (tiers : List ProviderTier)
    (pushed : List String) (e : ProviderEvaluation) : Type 0 where
  at_tier :
      (before after : List ProviderTier) (t : ProviderTier)
      → tiers ≡ before ++ t ∷ after
      → NoneEligible s before
      → is_eligible s t ≡ true
      → e ≡ evaluation_at s p t (pushed ++ rejections s before)
      → Placed s p tiers pushed e
  nowhere :
      NoneEligible s tiers
      → e ≡ evaluation_without p (pushed ++ rejections s tiers)
      → Placed s p tiers pushed e

cons_some-append :
    (pushed : List String) {pushed' : List String} (m : Option String) (xs : List String)
    → pushed' ≡ pushed ++ cons_some m []
    → pushed' ++ xs ≡ pushed ++ cons_some m xs
cons_some-append pushed none xs e = rw (e, append-nil)
cons_some-append pushed (some x) xs e = rw (e, append_assoc)

module _ (s : TaxSituation) (p : ProviderDefinition) where
  -- A tier that is skipped pushes its message, if it has one.
  Placed-skip :
      (t : ProviderTier) (ts : List ProviderTier) {pushed pushed' : List String}
      {e : ProviderEvaluation}
      → is_eligible s t ≡ false
      → pushed' ≡ pushed ++ cons_some (disqualified t s t.disqualifying_conditions) []
      → Placed s p ts pushed' e
      → Placed s p (t ∷ ts) pushed e
  Placed-skip t ts skip push (at_tier before after t' split none_before here eq) =
      at_tier (t ∷ before) after t' (ap (λ r. t ∷ r) split) (skip, none_before) here
        (eq ∙ ap (evaluation_at s p t') (cons_some-append _ _ (rejections s before) push))
  Placed-skip t ts skip push (nowhere all_skipped eq) =
      nowhere (skip, all_skipped)
        (eq ∙ ap (evaluation_without p) (cons_some-append _ _ (rejections s ts) push))

  place_lem :
      (tiers : List ProviderTier) (pushed : List String)
      → Placed s p tiers pushed (place p s tiers pushed)
  unfolding place
  place_lem [] pushed = nowhere tt (rw append-nil)
  place_lem (t ∷ ts) pushed = elim (Option-cases (disqualified t s t.disqualifying_conditions)) [
    | inl e ↦ elim (Bool-cases (all_qualify t s)) [
      | inl q ↦
          rw (e, q, place)
            (at_tier [] ts t refl tt
              (unfold all_qualify in
                ground (arith, disqualified-any t s t.disqualifying_conditions))
              (rw append-nil))
      | inr q ↦
          rw (e, q, place)
            (Placed-skip t ts (unfold all_qualify in ground arith) (rw (e, append-nil))
              (place_lem ts pushed))
    ]
    | inr (m, e) ↦
        rw (e, place)
          (Placed-skip t ts (eligible-disqualified s t m e) (rw e)
            (place_lem ts (pushed ++ m ∷ [])))
  ]

-- The evaluation of a provider is that of its first eligible tier: every tier before it is
-- ineligible, and the messages are those of the tiers before it that are disqualified, in order.
-- Without an eligible tier there is no match and no price.
pub evaluate_provider-Placed :
    (s : TaxSituation) (p : ProviderDefinition) → Placed s p p.tiers [] (evaluate_provider s p)
unfolding evaluate_provider
evaluate_provider-Placed s p = place_lem s p p.tiers []
