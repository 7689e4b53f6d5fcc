-- ===== src/TaskQueue/Claims.antt =====
-- What `claimNextTask` does to the table.
use mathlib.Core.Path.{subst}
use tea_tax_product.Prelude.{
  ℕ, String, ◌≡◌, refl, ap, ◌∙◌, inl, inr, Bool, true, false, Option, none, some, List, [], ◌∷◌,
  ◌++◌, map, arith, any, filter, Bool-cases, Option-cases,
}
use tea_tax_product.Prelude.Enum.{
  string_eq, Distinct, includes, includes-append, includes-cons, includes-nil,
}
use tea_tax_product.TaskQueue.Types.{TaskQueueRow, ClaimOptions}
use tea_tax_product.TaskQueue.Table.{update_rows-none, update_rows-append}
use tea_tax_product.TaskQueue.Selection.{Selected, next_claimable-none, next_claimable-Selected}
use tea_tax_product.TaskQueue.Operations.{
  update_rows, returning, first, next_claimable, is_claimable, is_selected, claim_row,
  claim_next_task,
}

-- The ids of the rows.
abbrev pub ids_of : List TaskQueueRow → List String
ids_of rows = map (λ row. row.id) rows

-- Rows with other ids are not selected.
not_selected :
    (row : TaskQueueRow) (rows : List TaskQueueRow)
    → includes (ids_of rows) row.id ≡ false
    → any (is_selected (some row)) rows ≡ false
unfolding any is_selected
not_selected row [] h = refl
not_selected row (r ∷ rows) h =
    ground (arith, includes-cons r.id (ids_of rows) row.id, not_selected row rows)

ids_of-append : (xs ys : List TaskQueueRow) → ids_of (xs ++ ys) ≡ ids_of xs ++ ids_of ys
ids_of-append [] ys = refl
ids_of-append (x ∷ xs) ys = ap (λ l. x.id ∷ l) (ids_of-append xs ys)

-- A row that stands in a table with distinct ids, apart from the others.
pub apart :
    (before after : List TaskQueueRow) (row : TaskQueueRow)
    → Distinct (ids_of (before ++ row ∷ after))
    → (includes (ids_of before) row.id ≡ false) × (includes (ids_of after) row.id ≡ false)
apart [] after row d = (includes-nil row.id, d.0)
apart (r ∷ before) after row d =
    let (left, right) = apart before after row d.1 in
    (
      ground (
        arith,
        includes-cons r.id (ids_of before) row.id,
        ids_of-append before (row ∷ after),
        includes-append (ids_of before) (ids_of (row ∷ after)) r.id,
        includes-cons row.id (ids_of after) r.id,
        string_eq.test_iff r.id row.id,
        string_eq.test_iff row.id r.id,
      ),
      right,
    )

first-returning :
    (matches : TaskQueueRow → Bool) (set : TaskQueueRow → TaskQueueRow)
    (before after : List TaskQueueRow) (row : TaskQueueRow)
    → any matches before ≡ false
    → matches row ≡ true
    → first (returning matches set (before ++ row ∷ after)) ≡ some (set row)
unfolding returning filter any
first-returning matches set [] after row h k = rw k refl
first-returning matches set (r ∷ before) after row h k = elim (Bool-cases (matches r)) [
  | inl e ↦ cc
  | inr e ↦ rw e (first-returning matches set before after row (ground arith) k)
]

-- With distinct ids the UPDATE changes the selected row alone, and returns it.
claim_selected :
    (now : ℕ) (o : ClaimOptions) (before after : List TaskQueueRow) (row : TaskQueueRow)
    → Distinct (ids_of (before ++ row ∷ after))
    → (update_rows (is_selected (some row)) (claim_row now o) (before ++ row ∷ after)
        ≡ before ++ claim_row now o row ∷ after)
      × (first (returning (is_selected (some row)) (claim_row now o) (before ++ row ∷ after))
          ≡ some (claim_row now o row))
unfolding update_rows
claim_selected now o before after row d =
    let (left, right) = apart before after row d in
    let own : is_selected (some row) row ≡ true =
      unfold is_selected in (string_eq.test_iff row.id row.id).1 refl in
    (
      update_rows-append (is_selected (some row)) (claim_row now o) before (row ∷ after)
          ∙ rw
              (
                own,
                update_rows-none (is_selected (some row)) (claim_row now o) before
                    (not_selected row before left),
                update_rows-none (is_selected (some row)) (claim_row now o) after
                    (not_selected row after right),
              )
              refl,
      first-returning (is_selected (some row)) (claim_row now o) before after row
          (not_selected row before left) own,
    )

-- The statement after its inner SELECT.
abbrev run_claim :
    ℕ
    → ClaimOptions
    → Option TaskQueueRow
    → List TaskQueueRow
    → List TaskQueueRow × Option TaskQueueRow
run_claim now o best rows = (
  update_rows (is_selected best) (claim_row now o) rows,
  first (returning (is_selected best) (claim_row now o) rows),
)

claim_next_task-run :
    (now : ℕ) (locked : List String) (o : ClaimOptions) (rows : List TaskQueueRow)
    (best : Option TaskQueueRow)
    → next_claimable (is_claimable now locked o.agent_type) rows ≡ best
    → claim_next_task now locked o rows ≡ run_claim now o best rows
unfolding claim_next_task
claim_next_task-run now locked o rows best e = ap (λ b. run_claim now o b rows) e

returning-none :
    (matches : TaskQueueRow → Bool) (set : TaskQueueRow → TaskQueueRow) (rows : List TaskQueueRow)
    → any matches rows ≡ false
    → first (returning matches set rows) ≡ none
unfolding returning filter any
returning-none matches set [] h = refl
returning-none matches set (r ∷ rows) h = elim (Bool-cases (matches r)) [
  | inl e ↦ cc
  | inr e ↦ rw e (returning-none matches set rows (ground arith))
]

none_selected : (rows : List TaskQueueRow) → any (is_selected none) rows ≡ false
unfolding any is_selected
none_selected [] = refl
none_selected (r ∷ rows) = none_selected rows

run_claim-none :
    (now : ℕ) (o : ClaimOptions) (rows : List TaskQueueRow)
    → run_claim now o none rows ≡ (rows, none)
run_claim-none now o rows =
    rw
      (
        update_rows-none (is_selected none) (claim_row now o) rows (none_selected rows),
        returning-none (is_selected none) (claim_row now o) rows (none_selected rows),
      )
      refl

run_claim-some :
    (now : ℕ) (o : ClaimOptions) (before after : List TaskQueueRow) (row : TaskQueueRow)
    → Distinct (ids_of (before ++ row ∷ after))
    → run_claim now o (some row) (before ++ row ∷ after)
      ≡ (before ++ claim_row now o row ∷ after, some (claim_row now o row))
run_claim-some now o before after row d =
    let (changed, returned) = claim_selected now o before after row d in rw (changed, returned) refl

-- A claim takes no task and changes nothing, and then no row is claimable, or it takes a claimable row
-- that no claimable row comes before, and changes that row alone.
pub data Claims (now : ℕ) (locked : List String) (o : ClaimOptions) (rows : List TaskQueueRow)
    : List TaskQueueRow × Option TaskQueueRow → Type 0 where
  no_task :
      {w : List TaskQueueRow × Option TaskQueueRow}
      → any (is_claimable now locked o.agent_type) rows ≡ false
      → w ≡ (rows, none)
      → Claims now locked o rows w
  task :
      {w : List TaskQueueRow × Option TaskQueueRow} (row : TaskQueueRow)
      (s : Selected (is_claimable now locked o.agent_type) rows row)
      → w ≡ (s.before ++ claim_row now o row ∷ s.after, some (claim_row now o row))
      → Claims now locked o rows w

-- `claimNextTask` claims the first claimable row by priority and age, of a table whose ids are distinct.
pub claim_next_task-Claims :
    (now : ℕ) (locked : List String) (o : ClaimOptions) (rows : List TaskQueueRow)
    → Distinct (ids_of rows)
    → Claims now locked o rows (claim_next_task now locked o rows)
claim_next_task-Claims now locked o rows d =
    elim (Option-cases (next_claimable (is_claimable now locked o.agent_type) rows)) [
      | inl e ↦
          no_task (next_claimable-none (is_claimable now locked o.agent_type) rows e)
            (claim_next_task-run now locked o rows none e ∙ run_claim-none now o rows)
      | inr (row, e) ↦
          let s = next_claimable-Selected (is_claimable now locked o.agent_type) rows row e in
          task row s (
            claim_next_task-run now locked o rows (some row) e
            ∙ ap (run_claim now o (some row)) s.split
            ∙ run_claim-some now o s.before s.after row
                (subst (λ l. Distinct (ids_of l)) s.split d))
    ]
