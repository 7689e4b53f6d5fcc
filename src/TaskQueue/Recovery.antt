-- ===== src/TaskQueue/Recovery.antt =====
-- What the recovery of stale claims leaves.
use tea_tax_product.Prelude.{
  ℕ, ◌≡◌, refl, inl, inr, Bool, false, List, [], ◌∷◌, arith, any, filter, Bool-cases,
}
use tea_tax_product.TaskQueue.Types.{TaskQueueRow, task_queue_status_eq, TaskQueueStatus-discrete}
use tea_tax_product.TaskQueue.Table.{update_rows-none}
use tea_tax_product.TaskQueue.Operations.{
  update_rows, returning, is_stale, is_exhausted, recover_row, recover_stale_claims,
}

recover_row-fresh :
    (now later : ℕ) (row : TaskQueueRow) → is_stale later (recover_row now row) ≡ false
unfolding is_stale recover_row TaskQueueStatus-discrete
recover_row-fresh now later row = elim (Bool-cases (is_exhausted row)) [
  | inl h ↦ rw h refl
  | inr h ↦ rw h refl
]

none_stale :
    (now : ℕ) (rows : List TaskQueueRow)
    → any (is_stale now) (update_rows (is_stale now) (recover_row now) rows) ≡ false
unfolding update_rows any
none_stale now [] = refl
none_stale now (row ∷ rows) = elim (Bool-cases (is_stale now row)) [
  | inl h ↦ rw (h, recover_row-fresh now now row, none_stale now rows) refl
  | inr h ↦ rw (h, none_stale now rows) (rw h refl)
]

filter-none :
    (p : TaskQueueRow → Bool) (rows : List TaskQueueRow) → any p rows ≡ false → filter p rows ≡ []
unfolding any filter
filter-none p [] h = refl
filter-none p (row ∷ rows) h = ground (arith, filter-none p rows)

pub recover_stale_claims-again :
    (now : ℕ) (rows : List TaskQueueRow)
    → recover_stale_claims now (recover_stale_claims now rows).0
      ≡ ((recover_stale_claims now rows).0, [])
unfolding recover_stale_claims returning
recover_stale_claims-again now rows =
    rw
      (
        update_rows-none (is_stale now) (recover_row now)
            (update_rows (is_stale now) (recover_row now) rows) (none_stale now rows),
        filter-none (is_stale now) (update_rows (is_stale now) (recover_row now) rows)
            (none_stale now rows),
      )
      refl
