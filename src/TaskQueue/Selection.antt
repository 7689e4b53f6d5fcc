-- ===== src/TaskQueue/Selection.antt =====
-- The row that the inner SELECT of a claim finds.
use tea_tax_product.Prelude.{
  ◌≡◌, refl, ap, inl, inr, Bool, true, false, ◌&&◌, none, some, List, [], ◌∷◌, ◌++◌, arith, any,
  any_mono, Bool-cases, Option-cases,
}
use tea_tax_product.TaskQueue.Types.{TaskQueueRow}
use tea_tax_product.TaskQueue.Operations.{comes_before, next_claimable}

comes_before_trans :
    (x a b : TaskQueueRow)
    → comes_before x a ≡ true
    → comes_before b a ≡ false
    → comes_before x b ≡ true
unfolding comes_before
comes_before_trans x a b h k = ground arith

comes_before_asym : (a b : TaskQueueRow) → comes_before a b ≡ true → comes_before b a ≡ false
unfolding comes_before
comes_before_asym a b h = ground arith

comes_before_irrefl : (a : TaskQueueRow) → comes_before a a ≡ false
unfolding comes_before
comes_before_irrefl a = ground arith

module _ (claimable : TaskQueueRow → Bool) where
  -- Some claimable row comes before this one.
  abbrev pub has_before : TaskQueueRow → List TaskQueueRow → Bool
  has_before row rows = any (λ r. claimable r && comes_before r row) rows

  -- `row` stands in the list, it is claimable, and no claimable row comes before it.
  pub record Selected (rows : List TaskQueueRow) (row : TaskQueueRow) : Type 0 where
    pub before : List TaskQueueRow
    pub after : List TaskQueueRow
    pub split : rows ≡ before ++ row ∷ after
    pub fits : claimable row ≡ true
    pub least : has_before row rows ≡ false

  pub next_claimable-none :
      (rows : List TaskQueueRow) → next_claimable claimable rows ≡ none → any claimable rows ≡ false
  unfolding next_claimable any
  next_claimable-none [] h = refl
  next_claimable-none (row ∷ rows) h = ground (arith, next_claimable-none rows)

  -- A row that no claimable row of the rest comes before.
  has_before_mono :
      (a b : TaskQueueRow) (rows : List TaskQueueRow)
      → comes_before b a ≡ false
      → has_before b rows ≡ false
      → has_before a rows ≡ false
  has_before_mono a b rows h k = elim (Bool-cases (has_before a rows)) [
    | inr e ↦ e
    | inl e ↦
        let more : has_before b rows ≡ true =
          any_mono (λ r. claimable r && comes_before r a) (λ r. claimable r && comes_before r b)
            rows (λ r g. ground (arith, comes_before_trans r a b)) e in
        cc
  ]

  no_claimable :
      (a : TaskQueueRow) (rows : List TaskQueueRow)
      → any claimable rows ≡ false
      → has_before a rows ≡ false
  unfolding any
  no_claimable a [] h = refl
  no_claimable a (row ∷ rows) h = ground (arith, no_claimable a rows)

  pub next_claimable-Selected :
      (rows : List TaskQueueRow) (row : TaskQueueRow)
      → next_claimable claimable rows ≡ some row
      → Selected rows row
  unfolding next_claimable any
  next_claimable-Selected [] row h = cc
  next_claimable-Selected (r ∷ rows) row h = elim (Bool-cases (claimable r)) [
    | inr skip ↦
        let rest : Selected rows row = next_claimable-Selected rows row (ground arith) in
        record {
          before = r ∷ rest.before;
          after = rest.after;
          split = ap (λ l. r ∷ l) rest.split;
          fits = rest.fits;
          least = rw (skip, rest.least) refl;
        }
    | inl fit ↦ elim (Option-cases (next_claimable claimable rows)) [
      | inl none_later ↦
          let same : r ≡ row = ground arith in
          rw (← same) (record {
            before = [];
            after = rows;
            split = refl;
            fits = fit;
            least = ground (
              arith,
              comes_before_irrefl r,
              no_claimable r rows (next_claimable-none rows none_later),
            );
          })
      | inr (best, e) ↦
          let rest : Selected rows best = next_claimable-Selected rows best e in
          elim (Bool-cases (comes_before best r)) [
            | inl first ↦
                let same : best ≡ row = ground arith in
                rw (← same) (record {
                  before = r ∷ rest.before;
                  after = rest.after;
                  split = ap (λ l. r ∷ l) rest.split;
                  fits = rest.fits;
                  least = ground (arith, comes_before_asym best r, rest.least);
                })
            | inr later ↦
                let same : r ≡ row = ground arith in
                rw (← same) (record {
                  before = [];
                  after = rows;
                  split = refl;
                  fits = fit;
                  least =
                      ground (
                        arith,
                        comes_before_irrefl r,
                        has_before_mono r best rows later rest.least,
                      );
                })
          ]
    ]
  ]
