-- ===== src/TaskQueue/Winner.antt =====
-- A claimed task is not claimed again while it stays claimed.
use mathlib.Core.Path.{subst}
use tea_tax_product.Prelude.{
  ℕ, String, ◌≡◌, refl, ap, sym, ◌∙◌, Bool, false, ◌&&◌, Option, none, some, List, [], ◌∷◌, ◌++◌,
  map, arith, any, any-append,
}
use tea_tax_product.Prelude.Enum.{◌===◌, string_eq, Distinct, includes, includes-cons}
use tea_tax_product.TaskQueue.Types.{
  TaskQueueRow, ClaimOptions, pending, task_queue_status_eq, TaskQueueStatus-discrete,
}
use tea_tax_product.TaskQueue.Table.{update_rows-column}
use tea_tax_product.TaskQueue.Selection.{Selected}
use tea_tax_product.TaskQueue.Operations.{
  next_claimable, is_claimable, is_selected, claim_row, claim_next_task,
}
use tea_tax_product.TaskQueue.Claims.{ids_of, apart, Claims, no_task, task, claim_next_task-Claims}

abbrev is_pending_with : String → TaskQueueRow → Bool
is_pending_with id row = row.id === id && row.status === pending

other_ids :
    (id : String) (rows : List TaskQueueRow)
    → includes (ids_of rows) id ≡ false
    → any (is_pending_with id) rows ≡ false
unfolding any
other_ids id [] h = refl
other_ids id (r ∷ rows) h = ground (arith, includes-cons r.id (ids_of rows) id, other_ids id rows)

claimed-not-pending :
    (now : ℕ) (o : ClaimOptions) (row : TaskQueueRow) (id : String)
    → is_pending_with id (claim_row now o row) ≡ false
unfolding claim_row TaskQueueStatus-discrete
claimed-not-pending now o row id = ground arith

-- No row of the table after a claim is pending and has the id of the claimed row.
winner-not-pending :
    (now : ℕ) (o : ClaimOptions) (before after : List TaskQueueRow) (row : TaskQueueRow)
    → Distinct (ids_of (before ++ row ∷ after))
    → any (is_pending_with row.id) (before ++ claim_row now o row ∷ after) ≡ false
unfolding any
winner-not-pending now o before after row d =
    let (left, right) = apart before after row d in
    ground (
      arith,
      any-append (is_pending_with row.id) before (claim_row now o row ∷ after),
      other_ids row.id before left,
      other_ids row.id after right,
      claimed-not-pending now o row row.id,
    )

Selected-pending :
    (now : ℕ) (locked : List String) (agent_type id : String) (rows : List TaskQueueRow)
    (row : TaskQueueRow)
    → Selected (is_claimable now locked agent_type) rows row
    → any (is_pending_with id) rows ≡ false
    → (row.id === id) ≡ false
unfolding any is_claimable
Selected-pending now locked agent_type id rows row s h = ground (
  arith,
  any-append (is_pending_with id) s.before (row ∷ s.after),
  ap (any (is_pending_with id)) s.split,
  s.fits,
)

-- The id of the row that a claim returns.
abbrev id_of : Option TaskQueueRow → String
id_of none = ""
id_of (some row) = row.id

claimed-other :
    (now : ℕ) (locked : List String) (o : ClaimOptions) (id : String) (rows : List TaskQueueRow)
    (w : List TaskQueueRow × Option TaskQueueRow) (r : TaskQueueRow)
    → Claims now locked o rows w
    → any (is_pending_with id) rows ≡ false
    → w.1 ≡ some r
    → (r.id === id) ≡ false
unfolding claim_row
claimed-other now locked o id rows w r (no_task e eq) h found = cc (ap (λ v. v.1) eq)
claimed-other now locked o id rows w r (task row s eq) h found =
    let same : row.id ≡ r.id = ap id_of (sym (ap (λ v. v.1) eq) ∙ found) in
    rw (← same) (Selected-pending now locked o.agent_type id rows row s h)

claimed-winner :
    (now : ℕ) (locked : List String) (o : ClaimOptions) (rows : List TaskQueueRow)
    (w : List TaskQueueRow × Option TaskQueueRow) (r : TaskQueueRow)
    → Claims now locked o rows w
    → Distinct (ids_of rows)
    → w.1 ≡ some r
    → any (is_pending_with r.id) w.0 ≡ false
claimed-winner now locked o rows w r (no_task e eq) d found = cc (ap (λ v. v.1) eq)
claimed-winner now locked o rows w r (task row s eq) d found =
    let same : row.id ≡ r.id = unfold claim_row in ap id_of (sym (ap (λ v. v.1) eq) ∙ found) in
    rw (← same, ap (λ v. v.0) eq)
      (winner-not-pending now o s.before s.after row (subst (λ l. Distinct (ids_of l)) s.split d))

-- A claim keeps the columns that its SET does not name.
pub claim_next_task-column :
    (now : ℕ) (locked : List String) (o : ClaimOptions) (rows : List TaskQueueRow)
    (column : TaskQueueRow → String)
    → ((row : TaskQueueRow) → column (claim_row now o row) ≡ column row)
    → map column (claim_next_task now locked o rows).0 ≡ map column rows
unfolding claim_next_task
claim_next_task-column now locked o rows column keeps =
    update_rows-column (is_selected (next_claimable (is_claimable now locked o.agent_type) rows))
      (claim_row now o) column keeps rows

pub claim_next_task-ids :
    (now : ℕ) (locked : List String) (o : ClaimOptions) (rows : List TaskQueueRow)
    → ids_of (claim_next_task now locked o rows).0 ≡ ids_of rows
unfolding claim_row
claim_next_task-ids now locked o rows =
    claim_next_task-column now locked o rows (λ row. row.id) (λ row. refl)

-- A claim has exactly one winner: whoever claims next, whenever and for whatever agent type, gets another
-- task, if the ids of the table are distinct.
pub claim_next_task-once :
    (now later : ℕ) (locked locked' : List String) (o o' : ClaimOptions) (rows : List TaskQueueRow)
    (r r' : TaskQueueRow)
    → Distinct (ids_of rows)
    → (claim_next_task now locked o rows).1 ≡ some r
    → (claim_next_task later locked' o' (claim_next_task now locked o rows).0).1 ≡ some r'
    → (r'.id === r.id) ≡ false
claim_next_task-once now later locked locked' o o' rows r r' d first second =
    let kept : Distinct (ids_of (claim_next_task now locked o rows).0) =
      rw (claim_next_task-ids now locked o rows) d in
    claimed-other later locked' o' r.id _ _ r' (claim_next_task-Claims later locked' o' _ kept)
      (claimed-winner now locked o rows _ r (claim_next_task-Claims now locked o rows d) d first)
      second
