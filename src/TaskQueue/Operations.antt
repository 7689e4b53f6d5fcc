-- ===== src/TaskQueue/Operations.antt =====
-- The statements of task-queue.ts, on the list of rows of the table. `now` is NOW(), `new_id` the default
-- of the id column, gen_random_uuid(). Where ORDER BY leaves the order open the first row of the table
-- counts.
use mathlib.Core.Option.{get_or}
use tea_tax_product.Prelude.{
  ℕ, ◌+◌, ◌*◌, ◌^◌, String, Bool, true, false, not, ◌&&◌, ◌||◌, Option, none, some, List, [], ◌∷◌,
  ◌++◌, map, filter, if◌then◌else◌, ltb, leb,
}
use tea_tax_product.Prelude.Enum.{◌===◌, includes, string_eq}
use tea_tax_product.Prelude.Int.{pos, ltb_ℤ}
use tea_tax_product.Js.{obj, end}
use tea_tax_product.TaskQueue.Types.{
  TaskQueueRow, task_queue_status_eq, pending, claimed, completed, dead, EnqueueOptions,
  ClaimOptions, UpdateStatusOptions, SubmitResultOptions, RecoveredTaskRow,
}

-- UPDATE task_queue SET ... WHERE ...
unfoldable pub update_rows :
    (TaskQueueRow → Bool) → (TaskQueueRow → TaskQueueRow) → List TaskQueueRow → List TaskQueueRow
update_rows matches set [] = []
update_rows matches set (row ∷ rows) =
    (if matches row then set row else row) ∷ update_rows matches set rows

-- RETURNING *
unfoldable pub returning :
    (TaskQueueRow → Bool) → (TaskQueueRow → TaskQueueRow) → List TaskQueueRow → List TaskQueueRow
returning matches set rows = map set (filter matches rows)

-- rows[0] ?? null
abbrev pub first {ℓ} : {A : Type ℓ} → List A → Option A
first [] = none
first (x ∷ xs) = some x

unfoldable pub find_key : String → List TaskQueueRow → Option TaskQueueRow
find_key key [] = none
find_key key (row ∷ rows) =
    let later = find_key key rows in if row.idempotency_key === key then some row else later

-- The row of an INSERT.
unfoldable pub new_row : ℕ → String → EnqueueOptions → TaskQueueRow
new_row now new_id o = record {
  id = new_id;
  idempotency_key = o.idempotency_key;
  agent_type = o.agent_type;
  job_type = o.job_type;
  status = pending;
  payload = get_or o.payload (obj end);
  correlation_id = o.correlation_id;
  created_by = o.created_by;
  claimed_by = none;
  claimed_at = none;
  claim_expires_at = none;
  delegated_token = none;
  result = none;
  error_message = none;
  attempt = 0;
  max_attempts = get_or o.max_attempts (pos 3);
  next_retry_at = none;
  priority = get_or o.priority (pos 5);
  created_at = now;
  updated_at = now;
}

-- ON CONFLICT sets updated_at to itself and returns the row that is there.
unfoldable pub enqueue_task :
    ℕ → String → EnqueueOptions → List TaskQueueRow → List TaskQueueRow × TaskQueueRow
unfolding find_key new_row
enqueue_task now new_id o rows = elim (find_key o.idempotency_key rows) [
  | some row ↦ (rows, row)
  | none ↦ (rows ++ new_row now new_id o ∷ [], new_row now new_id o)
]

-- next_retry_at IS NULL OR next_retry_at <= NOW()
unfoldable pub is_due : ℕ → Option ℕ → Bool
is_due now none = true
is_due now (some at) = leb at now

-- The WHERE of the inner SELECT; SKIP LOCKED leaves out the rows that another transaction holds.
unfoldable pub is_claimable : ℕ → List String → String → TaskQueueRow → Bool
unfolding is_due
is_claimable now locked agent_type row =
    row.agent_type === agent_type
    && row.status === pending
    && is_due now row.next_retry_at
    && not (includes locked row.id)

-- ORDER BY priority ASC, created_at ASC
unfoldable pub comes_before : TaskQueueRow → TaskQueueRow → Bool
comes_before a b =
    ltb_ℤ a.priority b.priority
    || not (ltb_ℤ b.priority a.priority) && ltb a.created_at b.created_at

-- LIMIT 1
unfoldable pub next_claimable : (TaskQueueRow → Bool) → List TaskQueueRow → Option TaskQueueRow
unfolding comes_before
next_claimable claimable [] = none
next_claimable claimable (row ∷ rows) =
    let later = next_claimable claimable rows in
    if claimable row
    then elim later [
      | none ↦ some row
      | some best ↦ if comes_before best row then some best else some row
    ]
    else later

unfoldable pub claim_row : ℕ → ClaimOptions → TaskQueueRow → TaskQueueRow
claim_row now o row = record row {
  status = claimed;
  claimed_by = some o.claimed_by;
  claimed_at = some now;
  claim_expires_at = some (now + get_or o.claim_ttl_seconds 300 * 1000000);
  delegated_token = o.delegated_token;
  attempt = row.attempt + 1;
  updated_at = now;
}

-- id = (SELECT ...)
unfoldable pub is_selected : Option TaskQueueRow → TaskQueueRow → Bool
is_selected none row = false
is_selected (some best) row = row.id === best.id

unfoldable pub claim_next_task :
    ℕ → List String → ClaimOptions → List TaskQueueRow → List TaskQueueRow × Option TaskQueueRow
unfolding update_rows returning next_claimable is_selected
claim_next_task now locked o rows =
    let best = next_claimable (is_claimable now locked o.agent_type) rows in
    (
      update_rows (is_selected best) (claim_row now o) rows,
      first (returning (is_selected best) (claim_row now o) rows),
    )

unfoldable pub set_status : ℕ → UpdateStatusOptions → TaskQueueRow → TaskQueueRow
set_status now o row = record row {
  status = o.status;
  error_message = o.error_message;
  next_retry_at = o.next_retry_at;
  updated_at = now;
}

unfoldable pub update_task_status :
    ℕ → UpdateStatusOptions → List TaskQueueRow → List TaskQueueRow × Option TaskQueueRow
unfolding update_rows returning
update_task_status now o rows = (
  update_rows (λ row. row.id === o.id) (set_status now o) rows,
  first (returning (λ row. row.id === o.id) (set_status now o) rows),
)

unfoldable pub set_result : ℕ → SubmitResultOptions → TaskQueueRow → TaskQueueRow
set_result now o row = record row { status = completed; result = some o.result; updated_at = now }

unfoldable pub submit_task_result :
    ℕ → SubmitResultOptions → List TaskQueueRow → List TaskQueueRow × Option TaskQueueRow
unfolding update_rows returning
submit_task_result now o rows = (
  update_rows (λ row. row.id === o.id) (set_result now o) rows,
  first (returning (λ row. row.id === o.id) (set_result now o) rows),
)

-- claim_expires_at < NOW(), which NULL is not
unfoldable pub is_expired : ℕ → Option ℕ → Bool
is_expired now none = false
is_expired now (some at) = ltb at now

unfoldable pub is_stale : ℕ → TaskQueueRow → Bool
unfolding is_expired
is_stale now row = row.status === claimed && is_expired now row.claim_expires_at

-- attempt >= max_attempts
unfoldable pub is_exhausted : TaskQueueRow → Bool
is_exhausted row = not (ltb_ℤ (pos row.attempt) row.max_attempts)

unfoldable pub recover_row : ℕ → TaskQueueRow → TaskQueueRow
unfolding is_exhausted
recover_row now row = record row {
  status = if is_exhausted row then dead else pending;
  claimed_by = none;
  claimed_at = none;
  claim_expires_at = none;
  delegated_token = none;
  next_retry_at = if is_exhausted row then none else some (now + 2 ^ row.attempt * 1000000);
  updated_at = now;
}

unfoldable pub recovered : TaskQueueRow → RecoveredTaskRow
recovered row = record {
  id = row.id;
  status = row.status;
  attempt = row.attempt;
  agent_type = row.agent_type;
  job_type = row.job_type;
}

unfoldable pub recover_stale_claims :
    ℕ → List TaskQueueRow → List TaskQueueRow × List RecoveredTaskRow
unfolding update_rows returning is_stale recover_row recovered
recover_stale_claims now rows = (
  update_rows (is_stale now) (recover_row now) rows,
  map recovered (returning (is_stale now) (recover_row now) rows),
)
