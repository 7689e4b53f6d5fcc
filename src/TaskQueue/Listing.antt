-- ===== src/TaskQueue/Listing.antt =====
-- `listTasksForUser` of task-queue.ts.
use tea_tax_product.Prelude.{
  ℕ, zero, suc, ◌≤◌, String, ◌≡◌, refl, inl, inr, Bool, true, ◌&&◌, List, [], ◌∷◌, arith, all,
  filter, length, if◌then◌else◌, Bool-cases, leb,
}
use tea_tax_product.Prelude.Enum.{◌===◌, string_eq}
use tea_tax_product.TaskQueue.Types.{TaskQueueRow}

-- ORDER BY created_at DESC
unfoldable pub insert_newest : TaskQueueRow → List TaskQueueRow → List TaskQueueRow
insert_newest row [] = row ∷ []
insert_newest row (r ∷ rows) =
    let later = insert_newest row rows in
    if leb r.created_at row.created_at then row ∷ r ∷ rows else r ∷ later

unfoldable pub newest_first : List TaskQueueRow → List TaskQueueRow
unfolding insert_newest
newest_first [] = []
newest_first (row ∷ rows) = insert_newest row (newest_first rows)

-- LIMIT
unfoldable pub take_rows : ℕ → List TaskQueueRow → List TaskQueueRow
take_rows zero rows = []
take_rows (suc limit) [] = []
take_rows (suc limit) (row ∷ rows) = row ∷ take_rows limit rows

unfoldable pub list_tasks_for_user : String → ℕ → List TaskQueueRow → List TaskQueueRow
unfolding newest_first take_rows
list_tasks_for_user user_id limit rows =
    take_rows limit (newest_first (filter (λ row. row.created_by === user_id) rows))

-- Each row is at least as new as those after it.
abbrev pub is_newest : TaskQueueRow → List TaskQueueRow → Bool
is_newest row rows = all (λ r. leb r.created_at row.created_at) rows

abbrev pub is_newest_first : List TaskQueueRow → Bool
is_newest_first [] = true
is_newest_first (row ∷ rows) = is_newest row rows && is_newest_first rows

take_rows-all :
    (p : TaskQueueRow → Bool) (limit : ℕ) (rows : List TaskQueueRow)
    → all p rows ≡ true
    → all p (take_rows limit rows) ≡ true
unfolding take_rows all
take_rows-all p zero rows h = refl
take_rows-all p (suc limit) [] h = refl
take_rows-all p (suc limit) (row ∷ rows) h = ground (arith, take_rows-all p limit rows)

take_rows-length : (limit : ℕ) (rows : List TaskQueueRow) → length (take_rows limit rows) ≤ limit
unfolding take_rows
take_rows-length zero rows = omega arith
take_rows-length (suc limit) [] = omega arith
take_rows-length (suc limit) (row ∷ rows) = omega (arith, take_rows-length limit rows)

take_rows-newest_first :
    (limit : ℕ) (rows : List TaskQueueRow)
    → is_newest_first rows ≡ true
    → is_newest_first (take_rows limit rows) ≡ true
unfolding take_rows
take_rows-newest_first zero rows h = refl
take_rows-newest_first (suc limit) [] h = refl
take_rows-newest_first (suc limit) (row ∷ rows) h = ground (
  arith,
  take_rows-all (λ r. leb r.created_at row.created_at) limit rows,
  take_rows-newest_first limit rows,
)

insert_newest-all :
    (p : TaskQueueRow → Bool) (row : TaskQueueRow) (rows : List TaskQueueRow)
    → all p (insert_newest row rows) ≡ (p row && all p rows)
unfolding insert_newest all
insert_newest-all p row [] = refl
insert_newest-all p row (r ∷ rows) = ground (arith, insert_newest-all p row rows)

newest_first-all :
    (p : TaskQueueRow → Bool) (rows : List TaskQueueRow) → all p (newest_first rows) ≡ all p rows
unfolding newest_first all
newest_first-all p [] = refl
newest_first-all p (row ∷ rows) =
    ground (arith, insert_newest-all p row (newest_first rows), newest_first-all p rows)

newer_all :
    (a b : TaskQueueRow) (rows : List TaskQueueRow)
    → leb a.created_at b.created_at ≡ true
    → is_newest a rows ≡ true
    → is_newest b rows ≡ true
unfolding all
newer_all a b [] h k = refl
newer_all a b (r ∷ rows) h k = ground (arith, newer_all a b rows h)

insert_newest-newest_first :
    (row : TaskQueueRow) (rows : List TaskQueueRow)
    → is_newest_first rows ≡ true
    → is_newest_first (insert_newest row rows) ≡ true
unfolding insert_newest all
insert_newest-newest_first row [] h = refl
insert_newest-newest_first row (r ∷ rows) h = elim (Bool-cases (leb r.created_at row.created_at)) [
  | inl e ↦ rw e (ground (arith, newer_all r row rows))
  | inr e ↦ rw e (
      ground (
        arith,
        insert_newest-all (λ x. leb x.created_at r.created_at) row rows,
        insert_newest-newest_first row rows,
      ))
]

newest_first_lem : (rows : List TaskQueueRow) → is_newest_first (newest_first rows) ≡ true
unfolding newest_first
newest_first_lem [] = refl
newest_first_lem (row ∷ rows) =
    insert_newest-newest_first row (newest_first rows) (newest_first_lem rows)

filter-all : (p : TaskQueueRow → Bool) (rows : List TaskQueueRow) → all p (filter p rows) ≡ true
unfolding filter all
filter-all p [] = refl
filter-all p (row ∷ rows) = ground (arith, filter-all p rows)

-- A list of tasks has at most `limit` rows, all of the user's, the newest first.
pub list_tasks_for_user_lem :
    (user_id : String) (limit : ℕ) (rows : List TaskQueueRow)
    → (length (list_tasks_for_user user_id limit rows) ≤ limit)
      × (all (λ row. row.created_by === user_id) (list_tasks_for_user user_id limit rows) ≡ true)
      × (is_newest_first (list_tasks_for_user user_id limit rows) ≡ true)
unfolding list_tasks_for_user
list_tasks_for_user_lem user_id limit rows =
    let own = filter (λ row. row.created_by === user_id) rows in
    (
      take_rows-length limit (newest_first own),
      take_rows-all (λ row. row.created_by === user_id) limit (newest_first own)
          (rw (newest_first-all (λ row. row.created_by === user_id) own)
            (filter-all (λ row. row.created_by === user_id) rows)),
      take_rows-newest_first limit (newest_first own) (newest_first_lem own),
    )
