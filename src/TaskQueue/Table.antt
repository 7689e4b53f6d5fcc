-- ===== src/TaskQueue/Table.antt =====
-- What an UPDATE keeps of the table.
use tea_tax_product.Prelude.{
  String, ◌≡◌, refl, ap, inl, inr, Bool, false, List, [], ◌∷◌, ◌++◌, map, arith, any, if◌then◌else◌,
  Bool-cases,
}
use tea_tax_product.TaskQueue.Types.{TaskQueueRow}
use tea_tax_product.TaskQueue.Operations.{update_rows}

module _ (matches : TaskQueueRow → Bool) (set : TaskQueueRow → TaskQueueRow) where
  -- A column that the SET does not change.
  pub update_rows-column :
      (column : TaskQueueRow → String)
      → ((row : TaskQueueRow) → column (set row) ≡ column row)
      → (rows : List TaskQueueRow) → map column (update_rows matches set rows) ≡ map column rows
  unfolding update_rows
  update_rows-column column keeps [] = refl
  update_rows-column column keeps (row ∷ rows) = elim (Bool-cases (matches row)) [
    | inl h ↦ rw (h, keeps row, update_rows-column column keeps rows) refl
    | inr h ↦ rw (h, update_rows-column column keeps rows) refl
  ]

  -- Rows that do not match are left as they are.
  pub update_rows-none :
      (rows : List TaskQueueRow) → any matches rows ≡ false → update_rows matches set rows ≡ rows
  unfolding update_rows any
  update_rows-none [] h = refl
  update_rows-none (row ∷ rows) h = ground (arith, update_rows-none rows)

  pub update_rows-append :
      (xs ys : List TaskQueueRow)
      → update_rows matches set (xs ++ ys)
        ≡ update_rows matches set xs ++ update_rows matches set ys
  unfolding update_rows
  update_rows-append [] ys = refl
  update_rows-append (x ∷ xs) ys =
      ap (λ r. (if matches x then set x else x) ∷ r) (update_rows-append xs ys)
