-- ===== src/TaskQueue/Attempts.antt =====
-- The bound on the attempts of a task, through each SET.
use mathlib.Core.Option.{get_or}
use tea_tax_product.Prelude.{
  ℕ, String, ◌≡◌, refl, inl, inr, Bool, true, false, not, ◌&&◌, List, [], ◌∷◌, ◌++◌, arith, all,
  if◌then◌else◌, Bool-cases,
}
use tea_tax_product.Prelude.Enum.{◌===◌, string_eq}
use tea_tax_product.Prelude.Int.{pos, ltb_ℤ, ◌≤ℤ◌}
use tea_tax_product.TaskQueue.Types.{
  TaskQueueRow, EnqueueOptions, ClaimOptions, UpdateStatusOptions, SubmitResultOptions, pending,
  task_queue_status_eq, TaskQueueStatus-discrete,
}
use tea_tax_product.TaskQueue.Operations.{
  update_rows, new_row, claim_row, set_status, set_result, is_exhausted, recover_row, is_claimable,
}

-- No more attempts than allowed, and one left while the task is pending.
abbrev pub is_within : TaskQueueRow → Bool
is_within row =
    if row.status === pending
    then ltb_ℤ (pos row.attempt) row.max_attempts
    else not (ltb_ℤ row.max_attempts (pos row.attempt))

pub claim_row-within :
    (now : ℕ) (locked : List String) (o : ClaimOptions) (row : TaskQueueRow)
    → is_claimable now locked o.agent_type row ≡ true
    → is_within row ≡ true
    → is_within (claim_row now o row) ≡ true
unfolding is_claimable claim_row TaskQueueStatus-discrete
claim_row-within now locked o row c h = ground arith

within-attempts : (row : TaskQueueRow) → is_within row ≡ true → pos row.attempt ≤ℤ row.max_attempts
within-attempts row h = ground arith

not_exhausted :
    (row : TaskQueueRow)
    → is_exhausted row ≡ false
    → ltb_ℤ (pos row.attempt) row.max_attempts ≡ true
unfolding is_exhausted
not_exhausted row h = ground arith

pub recover_row-within :
    (now : ℕ) (row : TaskQueueRow) → is_within row ≡ true → is_within (recover_row now row) ≡ true
unfolding recover_row TaskQueueStatus-discrete
recover_row-within now row h = elim (Bool-cases (is_exhausted row)) [
  | inl e ↦ rw e (ground (arith, within-attempts row h))
  | inr e ↦ rw e (not_exhausted row e)
]

pub set_result-within :
    (now : ℕ) (o : SubmitResultOptions) (row : TaskQueueRow)
    → is_within row ≡ true
    → is_within (set_result now o row) ≡ true
unfolding set_result TaskQueueStatus-discrete
set_result-within now o row h = ground arith

pub set_status-within :
    (now : ℕ) (o : UpdateStatusOptions) (row : TaskQueueRow)
    → (o.status === pending) ≡ false
    → is_within row ≡ true
    → is_within (set_status now o row) ≡ true
unfolding set_status
set_status-within now o row n h = ground arith

-- An UPDATE keeps the bound of every row, if its SET does.
pub all-update_rows :
    (matches : TaskQueueRow → Bool) (set : TaskQueueRow → TaskQueueRow) (rows : List TaskQueueRow)
    → ((row : TaskQueueRow) → is_within row ≡ true → is_within (set row) ≡ true)
    → all is_within rows ≡ true
    → all is_within (update_rows matches set rows) ≡ true
unfolding update_rows all
all-update_rows matches set [] keeps h = refl
all-update_rows matches set (row ∷ rows) keeps h =
    ground (arith, keeps row, all-update_rows matches set rows keeps)

pub all-append :
    (xs ys : List TaskQueueRow) → all is_within (xs ++ ys) ≡ (all is_within xs && all is_within ys)
unfolding all
all-append [] ys = refl
all-append (x ∷ xs) ys = ground (arith, all-append xs ys)

pub all-replaced :
    (before after : List TaskQueueRow) (row row' : TaskQueueRow)
    → (is_within row ≡ true → is_within row' ≡ true)
    → all is_within (before ++ row ∷ after) ≡ true
    → all is_within (before ++ row' ∷ after) ≡ true
unfolding all
all-replaced before after row row' keeps h =
    ground (arith, all-append before (row ∷ after), all-append before (row' ∷ after))

pub new_row-within :
    (now : ℕ) (id : String) (o : EnqueueOptions)
    → pos 1 ≤ℤ get_or o.max_attempts (pos 3)
    → is_within (new_row now id o) ≡ true
unfolding new_row TaskQueueStatus-discrete
new_row-within now id o h = ground arith
