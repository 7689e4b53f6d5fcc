-- ===== src/Audit/Chain.antt =====
-- A log whose rows come in the order of their times verifies.
use tea_tax_product.Prelude.{
  ℕ, ◌≡◌, refl, sym, ap, ◌∙◌, String, Bool, true, none, some, List, [], ◌∷◌, ◌++◌, all, arith,
  Option-cases, inl, inr,
}
use tea_tax_product.Prelude.Enum.{string_eq}
use tea_tax_product.Audit.{
  AuditEventInput, AuditEventRow, Platform, precedes, latest, hash_before, next_row,
  emit_audit_event, insert_row, ordered, check_rows, verify_chain, compute_audit_hash,
}

insert_row-last :
    (r : AuditEventRow) (rows : List AuditEventRow)
    → all (λ x. precedes x r) rows ≡ true
    → insert_row r rows ≡ rows ++ r ∷ []
unfolding insert_row all
insert_row-last r [] h = refl
insert_row-last r (x ∷ rows) h = ground (arith, insert_row-last r rows)

all-insert_row :
    (p : AuditEventRow → Bool) (r : AuditEventRow) (rows : List AuditEventRow)
    → p r ≡ true
    → all p rows ≡ true
    → all p (insert_row r rows) ≡ true
unfolding insert_row all
all-insert_row p r [] h a = rw h refl
all-insert_row p r (x ∷ rows) h a = ground (arith, all-insert_row p r rows h)

all-ordered :
    (p : AuditEventRow → Bool) (rows : List AuditEventRow)
    → all p rows ≡ true
    → all p (ordered rows) ≡ true
unfolding ordered all
all-ordered p [] a = refl
all-ordered p (r ∷ rows) a = ground (arith, all-ordered p rows, all-insert_row p r (ordered rows))

latest-all :
    (p : AuditEventRow → Bool) (rows : List AuditEventRow) (m : AuditEventRow)
    → all p rows ≡ true
    → latest rows ≡ some m
    → p m ≡ true
unfolding latest all
latest-all p [] m a h = ground arith
latest-all p (r ∷ rows) m a h = elim (Option-cases (latest rows)) [
  | inl e ↦ ground (arith, e)
  | inr q ↦ ground (arith, q.1, latest-all p rows q.0)
]

-- The hash after a chain of rows.
abbrev pub last_hash : String → List AuditEventRow → String
last_hash g [] = g
last_hash g (r ∷ rows) = last_hash r.hash rows

last_hash-append :
    (g : String) (rows : List AuditEventRow) (r : AuditEventRow)
    → last_hash g (rows ++ r ∷ []) ≡ r.hash
last_hash-append g [] r = refl
last_hash-append g (x ∷ rows) r = last_hash-append x.hash rows r

pub check_rows-append :
    (p : Platform) (g : String) (xs ys : List AuditEventRow)
    → check_rows p g xs ≡ none
    → check_rows p g (xs ++ ys) ≡ check_rows p (last_hash g xs) ys
unfolding check_rows
check_rows-append p g [] ys h = refl
check_rows-append p g (x ∷ xs) ys h = ground (arith, check_rows-append p x.hash xs ys)

-- What the chain of a log ends in is what the next row builds on.
abbrev pub Chained : Platform → String → List AuditEventRow → Type 0
Chained p genesis rows =
    (verify_chain p genesis rows ≡ none)
    × (hash_before genesis rows ≡ last_hash genesis (ordered rows))

-- Logs whose rows came in the order of their times and identifiers.
pub data InOrder (p : Platform) (genesis : String) : List AuditEventRow → Type 0 where
  begin : InOrder p genesis []
  emit :
      (id : ℕ) (e : AuditEventInput) (rows : List AuditEventRow)
      → all (λ x. precedes x (next_row p genesis id e rows)) rows ≡ true
      → InOrder p genesis rows
      → InOrder p genesis (emit_audit_event p genesis id e rows)

latest-newest :
    (r : AuditEventRow) (rows : List AuditEventRow)
    → all (λ x. precedes x r) rows ≡ true
    → latest (r ∷ rows) ≡ some r
unfolding latest
latest-newest r rows a = elim (Option-cases (latest rows)) [
  | inl e ↦ rw (e, latest) refl
  | inr q ↦ rw (q.1, latest) rw (latest-all (λ x. precedes x r) rows q.0 a q.1) refl
]

module _ (p : Platform) (genesis : String) where
  check_rows-next :
      (id : ℕ) (e : AuditEventInput) (rows : List AuditEventRow) (g : String)
      → hash_before genesis rows ≡ g
      → check_rows p g (next_row p genesis id e rows ∷ []) ≡ none
  unfolding check_rows next_row
  check_rows-next id e rows g h = ground (
    arith,
    string_eq.test_iff (hash_before genesis rows) g,
    string_eq.test_iff (compute_audit_hash p (hash_before genesis rows) e)
        (compute_audit_hash p (hash_before genesis rows) e),
  )

  emit-Chained :
      (id : ℕ) (e : AuditEventInput) (rows : List AuditEventRow)
      → all (λ x. precedes x (next_row p genesis id e rows)) rows ≡ true
      → Chained p genesis rows
      → Chained p genesis (emit_audit_event p genesis id e rows)
  unfolding emit_audit_event verify_chain ordered hash_before
  emit-Chained id e rows a c =
      let r = next_row p genesis id e rows in
      let o = insert_row-last r (ordered rows) (all-ordered (λ x. precedes x r) rows a) in
      (
        ap (check_rows p genesis) o
            ∙ check_rows-append p genesis (ordered rows) (r ∷ []) c.0
            ∙ check_rows-next id e rows (last_hash genesis (ordered rows)) c.1,
        rw (latest-newest r rows a) refl
            ∙ sym (ap (last_hash genesis) o ∙ last_hash-append genesis (ordered rows) r),
      )

  InOrder-Chained : (rows : List AuditEventRow) → InOrder p genesis rows → Chained p genesis rows
  unfolding verify_chain ordered check_rows hash_before latest
  InOrder-Chained [] begin = (refl, refl)
  InOrder-Chained _ (emit id e rows a i) = emit-Chained id e rows a (InOrder-Chained rows i)

  -- The log that events build one after another verifies, if the time of each new event, and then its identifier,
  -- lies after those of all rows before it.
  pub verify_chain-InOrder :
      (rows : List AuditEventRow) → InOrder p genesis rows → verify_chain p genesis rows ≡ none
  verify_chain-InOrder rows i = (InOrder-Chained rows i).0
