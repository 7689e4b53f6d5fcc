-- ===== src/TaskQueue/StateMachine.antt =====
-- The queue as a state machine, and its invariant.
use mathlib.Core.Option.{get_or}
use mathlib.Core.Path.{subst}
use tea_tax_product.Prelude.{
  ℕ, String, ◌≡◌, refl, ap, sym, inl, inr, Bool, true, false, Option, none, List, [], ◌∷◌, ◌++◌,
  map, arith, all, Option-cases,
}
use tea_tax_product.Prelude.Enum.{◌===◌, string_eq, Distinct, Distinct-concat, includes}
use tea_tax_product.Prelude.Int.{pos, ◌≤ℤ◌}
use tea_tax_product.TaskQueue.Types.{
  TaskQueueRow, EnqueueOptions, ClaimOptions, UpdateStatusOptions, SubmitResultOptions, pending,
  task_queue_status_eq,
}
use tea_tax_product.TaskQueue.Table.{update_rows-column}
use tea_tax_product.TaskQueue.Claims.{ids_of, Claims, no_task, task, claim_next_task-Claims}
use tea_tax_product.TaskQueue.Winner.{claim_next_task-ids, claim_next_task-column}
use tea_tax_product.TaskQueue.Enqueue.{
  enqueue_task-column, enqueue_task-Distinct, enqueue_task-new, enqueue_task-found,
}
use tea_tax_product.TaskQueue.Operations.{
  find_key, update_rows, new_row, enqueue_task, claim_row, claim_next_task, set_status,
  update_task_status, set_result, submit_task_result, is_stale, recover_row, recover_stale_claims,
}
use tea_tax_product.TaskQueue.Attempts.{
  is_within, claim_row-within, recover_row-within, set_result-within, set_status-within,
  all-update_rows, all-append, all-replaced, new_row-within,
}

-- What a table of the queue satisfies: distinct ids, distinct keys, and the bound on attempts.
pub record WellFormed (rows : List TaskQueueRow) : Type 0 where
  pub ids : Distinct (ids_of rows)
  pub keys : Distinct (map (λ row. row.idempotency_key) rows)
  pub within : all is_within rows ≡ true

-- The statements of task-queue.ts that change the table. A new id is not in the table, a task allows at
-- least one attempt, and nobody sets a status back to pending by hand.
pub data Step : List TaskQueueRow → List TaskQueueRow → Type 0 where
  enqueue :
      {rows : List TaskQueueRow} (now : ℕ) (id : String) (o : EnqueueOptions)
      → includes (ids_of rows) id ≡ false
      → pos 1 ≤ℤ get_or o.max_attempts (pos 3)
      → Step rows (enqueue_task now id o rows).0
  claim :
      {rows : List TaskQueueRow} (now : ℕ) (locked : List String) (o : ClaimOptions)
      → Step rows (claim_next_task now locked o rows).0
  update :
      {rows : List TaskQueueRow} (now : ℕ) (o : UpdateStatusOptions)
      → (o.status === pending) ≡ false
      → Step rows (update_task_status now o rows).0
  submit :
      {rows : List TaskQueueRow} (now : ℕ) (o : SubmitResultOptions)
      → Step rows (submit_task_result now o rows).0
  recover : {rows : List TaskQueueRow} (now : ℕ) → Step rows (recover_stale_claims now rows).0

pub data Reachable : List TaskQueueRow → Type 0 where
  start : Reachable []
  step : {rows rows' : List TaskQueueRow} → Reachable rows → Step rows rows' → Reachable rows'

-- An UPDATE that keeps ids and keys and the bound of each row.
update_rows-WellFormed :
    (matches : TaskQueueRow → Bool) (set : TaskQueueRow → TaskQueueRow) (rows : List TaskQueueRow)
    → ((row : TaskQueueRow) → (set row).id ≡ row.id)
    → ((row : TaskQueueRow) → (set row).idempotency_key ≡ row.idempotency_key)
    → ((row : TaskQueueRow) → is_within row ≡ true → is_within (set row) ≡ true)
    → WellFormed rows
    → WellFormed (update_rows matches set rows)
update_rows-WellFormed matches set rows same_id same_key keeps wf = record {
  ids = rw (update_rows-column matches set (λ row. row.id) same_id rows) wf.ids;
  keys = rw (update_rows-column matches set (λ row. row.idempotency_key) same_key rows) wf.keys;
  within = all-update_rows matches set rows keeps wf.within;
}

insert-WellFormed :
    (now : ℕ) (id : String) (o : EnqueueOptions) (rows : List TaskQueueRow)
    → includes (ids_of rows) id ≡ false
    → pos 1 ≤ℤ get_or o.max_attempts (pos 3)
    → WellFormed rows
    → find_key o.idempotency_key rows ≡ none
    → WellFormed (rows ++ new_row now id o ∷ [])
unfolding all
insert-WellFormed now id o rows new_id attempts wf e = record {
  ids =
      unfold new_row in
      (rw (enqueue_task-column (λ row. row.id) (new_row now id o) rows)
        (Distinct-concat (ids_of rows) id wf.ids new_id));
  keys = rw (enqueue_task-new now id o rows e) at (enqueue_task-Distinct now id o rows wf.keys);
  within =
      ground (
        arith,
        all-append rows (new_row now id o ∷ []),
        new_row-within now id o attempts,
        wf.within,
      );
}

Claims-within :
    (now : ℕ) (locked : List String) (o : ClaimOptions) (rows : List TaskQueueRow)
    (w : List TaskQueueRow × Option TaskQueueRow)
    → Claims now locked o rows w
    → all is_within rows ≡ true
    → all is_within w.0 ≡ true
Claims-within now locked o rows w (no_task e eq) h = rw (ap (λ v. v.0) eq) h
Claims-within now locked o rows w (task row s eq) h = rw (ap (λ v. v.0) eq) (
    all-replaced s.before s.after row (claim_row now o row)
      (claim_row-within now locked o row s.fits) (rw (← s.split) h))

Step-WellFormed :
    (rows rows' : List TaskQueueRow) → Step rows rows' → WellFormed rows → WellFormed rows'
Step-WellFormed rows rows' (enqueue now id o new_id attempts) wf =
    elim (Option-cases (find_key o.idempotency_key rows)) [
      | inl e ↦
          subst (λ w. WellFormed w.0) (sym (enqueue_task-new now id o rows e))
            (insert-WellFormed now id o rows new_id attempts wf e)
      | inr (row, e) ↦ subst (λ w. WellFormed w.0) (sym (enqueue_task-found now id o rows row e)) wf
    ]
Step-WellFormed rows rows' (claim now locked o) wf = record {
  ids = rw (claim_next_task-ids now locked o rows) wf.ids;
  keys =
      unfold claim_row in
      (rw (claim_next_task-column now locked o rows (λ row. row.idempotency_key) (λ row. refl))
        wf.keys);
  within =
      Claims-within now locked o rows _ (claim_next_task-Claims now locked o rows wf.ids) wf.within;
}
Step-WellFormed rows rows' (update now o status) wf =
    unfold update_task_status set_status in
    update_rows-WellFormed (λ row. row.id === o.id) (set_status now o) rows (λ row. refl)
      (λ row. refl) (λ row. set_status-within now o row status) wf
Step-WellFormed rows rows' (submit now o) wf =
    unfold submit_task_result set_result in
    update_rows-WellFormed (λ row. row.id === o.id) (set_result now o) rows (λ row. refl)
      (λ row. refl) (set_result-within now o) wf
Step-WellFormed rows rows' (recover now) wf =
    unfold recover_stale_claims recover_row in
    update_rows-WellFormed (is_stale now) (recover_row now) rows (λ row. refl) (λ row. refl)
      (recover_row-within now) wf

-- In every table that the statements reach from the empty one, ids and keys are distinct, no task has had
-- more attempts than its max_attempts, and a pending one has an attempt left. The steps are those with
-- new ids for new rows and at least one attempt for each task, in which no status is set to pending by
-- hand.
pub Reachable-WellFormed : {rows : List TaskQueueRow} → Reachable rows → WellFormed rows
Reachable-WellFormed start = unfold all in record { ids = tt; keys = tt; within = refl }
Reachable-WellFormed (step reached s) = Step-WellFormed _ _ s (Reachable-WellFormed reached)
