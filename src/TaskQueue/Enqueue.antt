-- ===== src/TaskQueue/Enqueue.antt =====
-- `enqueueTask` converges: a key has one task, whatever is asked for it later.
use mathlib.Core.Path.{subst}
use tea_tax_product.Prelude.{
  ℕ, String, ◌≡◌, refl, ap, inl, inr, false, none, some, List, [], ◌∷◌, ◌++◌, map, arith,
  Option-cases, ◌∙◌, sym,
}
use tea_tax_product.Prelude.Enum.{
  string_eq, Distinct, Distinct-concat, includes, includes-cons, includes-nil,
}
use tea_tax_product.TaskQueue.Types.{TaskQueueRow, EnqueueOptions}
use tea_tax_product.TaskQueue.Operations.{find_key, new_row, enqueue_task}

find_key-append :
    (key : String) (row : TaskQueueRow) (rows : List TaskQueueRow)
    → find_key key rows ≡ none
    → row.idempotency_key ≡ key
    → find_key key (rows ++ row ∷ []) ≡ some row
unfolding find_key
find_key-append key row [] h e = ground (arith, string_eq.test_iff row.idempotency_key key)
find_key-append key row (r ∷ rows) h e = ground (arith, find_key-append key row rows)

find_key-none :
    (key : String) (rows : List TaskQueueRow)
    → find_key key rows ≡ none
    → includes (map (λ r. r.idempotency_key) rows) key ≡ false
unfolding find_key
find_key-none key [] h = includes-nil key
find_key-none key (r ∷ rows) h = ground (
  arith,
  includes-cons r.idempotency_key (map (λ r. r.idempotency_key) rows) key,
  find_key-none key rows,
)

pub enqueue_task-found :
    (now : ℕ) (id : String) (o : EnqueueOptions) (rows : List TaskQueueRow) (row : TaskQueueRow)
    → find_key o.idempotency_key rows ≡ some row
    → enqueue_task now id o rows ≡ (rows, row)
unfolding enqueue_task
enqueue_task-found now id o rows row e = rw (e, enqueue_task) refl

pub enqueue_task-new :
    (now : ℕ) (id : String) (o : EnqueueOptions) (rows : List TaskQueueRow)
    → find_key o.idempotency_key rows ≡ none
    → enqueue_task now id o rows ≡ (rows ++ new_row now id o ∷ [], new_row now id o)
unfolding enqueue_task
enqueue_task-new now id o rows e = rw (e, enqueue_task) refl

-- A second request with the key of a first, whatever else it asks for and whenever it comes, gets the task
-- of the first and leaves the table as it is.
pub enqueue_task-again :
    (now later : ℕ) (id id' : String) (o o' : EnqueueOptions) (rows : List TaskQueueRow)
    → o'.idempotency_key ≡ o.idempotency_key
    → enqueue_task later id' o' (enqueue_task now id o rows).0 ≡ enqueue_task now id o rows
enqueue_task-again now later id id' o o' rows same =
    elim (Option-cases (find_key o.idempotency_key rows)) [
      | inl e ↦ rw (enqueue_task-new now id o rows e) (
          enqueue_task-found later id' o' _ (new_row now id o) (
            ap (λ k. find_key k (rows ++ new_row now id o ∷ [])) same
            ∙ find_key-append o.idempotency_key (new_row now id o) rows e (unfold new_row in refl)))
      | inr (row, e) ↦
          rw (enqueue_task-found now id o rows row e)
            (enqueue_task-found later id' o' rows row (ap (λ k. find_key k rows) same ∙ e))
    ]

-- The values of a column after an INSERT.
pub enqueue_task-column :
    (column : TaskQueueRow → String) (row : TaskQueueRow) (rows : List TaskQueueRow)
    → map column (rows ++ row ∷ []) ≡ map column rows ++ column row ∷ []
enqueue_task-column column row [] = refl
enqueue_task-column column row (r ∷ rows) =
    ap (λ l. column r ∷ l) (enqueue_task-column column row rows)

-- Where no two tasks have the same key, no two have it after a request.
pub enqueue_task-Distinct :
    (now : ℕ) (id : String) (o : EnqueueOptions) (rows : List TaskQueueRow)
    → Distinct (map (λ r. r.idempotency_key) rows)
    → Distinct (map (λ r. r.idempotency_key) (enqueue_task now id o rows).0)
unfolding new_row
enqueue_task-Distinct now id o rows d = elim (Option-cases (find_key o.idempotency_key rows)) [
  | inl e ↦
      subst (λ w. Distinct (map (λ r. r.idempotency_key) w.0))
        (sym (enqueue_task-new now id o rows e))
        (subst (λ l. Distinct l)
          (sym (enqueue_task-column (λ r. r.idempotency_key) (new_row now id o) rows))
          (Distinct-concat (map (λ r. r.idempotency_key) rows) o.idempotency_key d
            (find_key-none o.idempotency_key rows e)))
  | inr (row, e) ↦
      subst (λ w. Distinct (map (λ r. r.idempotency_key) w.0))
        (sym (enqueue_task-found now id o rows row e)) d
]
