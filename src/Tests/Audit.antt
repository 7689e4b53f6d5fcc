-- ===== src/Tests/Audit.antt =====
-- The audit log at two events, with texts for hashes.
use tea_tax_product.Prelude.{
  ℕ, ◌≡◌, refl, ap, sym, ◌∙◌, ◌⊎◌, arith, String, true, none, some, List, [], ◌∷◌, all,
}
use Prim.Native.String.{◌++◌ as str_append}
use Prim.Native.Char.{Char, code}
use text.Mathlib.TextLemmas.{
  append_cancel_left, cons-append, head-eq_of_cons-eq, tail-eq_of_cons-eq,
}
use tea_tax_product.Js.{null, str, obj, end, field}
use tea_tax_product.Taxonomy.Traversal.{before}
use tea_tax_product.Audit.{
  AuditEventInput, AuditEventRow, Platform, emit_audit_event, next_row, precedes, verify_chain,
  check_rows, compute_audit_hash, hash_text, canonical_json,
}
use tea_tax_product.Audit.Chain.{InOrder, begin, emit, verify_chain-InOrder}
use tea_tax_product.Audit.Tampering.{Same, Collision, check_rows-Collision}

abbrev platform : Platform
platform = record {
  quote = λ s. s;
  number_text = λ n. "0";
  text_less = before;
  iso = λ t. "now";
  sha256 = λ s. s;
}

abbrev event : ℕ → String → AuditEventInput
event ts action = record {
  actor_id = "u-1";
  action = action;
  entity_type = "tax_object";
  entity_id = "o-1";
  before = null;
  after = obj (field "label" (str "Mine") (field "filing_year" (str "2024") end));
  ts = ts;
}

abbrev log : List AuditEventRow
log =
    emit_audit_event platform "0" 1 (event 20 "task.update")
      (emit_audit_event platform "0" 2 (event 10 "task.create") [])

abbrev created : List AuditEventRow
created = emit_audit_event platform "0" 2 (event 10 "task.create") []

created-before :
    all (λ x. precedes x (next_row platform "0" 1 (event 20 "task.update") created)) created ≡ true
unfolding precedes next_row emit_audit_event all
created-before = refl

created-InOrder : InOrder platform "0" created
unfolding all
created-InOrder = emit 2 (event 10 "task.create") [] refl begin

log-InOrder : InOrder platform "0" log
log-InOrder = emit 1 (event 20 "task.update") created created-before created-InOrder

verify_chain-InOrder_example : verify_chain platform "0" log ≡ none
verify_chain-InOrder_example = verify_chain-InOrder platform "0" log log-InOrder

-- Keys are put in order.
sorted_keys : canonical_json platform (event 20 "a").after ≡ "{filing_year:2024,label:Mine}"
unfolding canonical_json before
sorted_keys = refl

-- Two events of the same millisecond, of which the second gets the smaller identifier: nobody touched the log, and
-- verification names the row 1.
same_time :
    verify_chain platform "0" (
      emit_audit_event platform "0" 1
        (event 10 "task.update")
        (emit_audit_event platform "0" 2 (event 10 "task.create") []))
    ≡ some 1
unfolding verify_chain emit_audit_event before
same_time = refl

-- The second event carries an earlier time than the first.
earlier_time :
    verify_chain platform "0" (
      emit_audit_event platform "0" 2
        (event 10 "task.update")
        (emit_audit_event platform "0" 1 (event 20 "task.create") []))
    ≡ some 2
unfolding verify_chain emit_audit_event before
earlier_time = refl

-- A text in which each character follows an x, and which a point ends.
marked : String → String
marked String.[] = "."
marked (String.◌∷◌ c s) = String.◌∷◌ "x" (String.◌∷◌ c (marked s))

same_start :
    (c d : Char) (s t x y : String)
    → str_append (String.◌∷◌ c s) x ≡ str_append (String.◌∷◌ d t) y
    → (c ≡ d) × (str_append s x ≡ str_append t y)
same_start c d s t x y h =
    let e = sym (cons-append c s x) ∙ h ∙ cons-append d t y in
    (head-eq_of_cons-eq e, tail-eq_of_cons-eq e)

different : (n m : ℕ) → n ≡ 46 → m ≡ 120 → n ≡ m → ⊥
different n m e d h = omega (arith, e, d, h)

marked-delimits :
    (s t x y : String) → str_append (marked s) x ≡ str_append (marked t) y → (s ≡ t) × (x ≡ y)
unfolding marked
marked-delimits String.[] String.[] x y h = (refl, append_cancel_left "." x y h)
marked-delimits String.[] (String.◌∷◌ d t) x y h =
    absurd (different _ _ refl refl (ap code (same_start "." "x" "" _ x y h).0))
marked-delimits (String.◌∷◌ c s) String.[] x y h =
    absurd (different _ _ refl refl (ap code (sym (same_start "x" "." _ "" x y h).0)))
marked-delimits (String.◌∷◌ c s) (String.◌∷◌ d t) x y h =
    let a = same_start "x" "x" _ _ x y h in
    let b = same_start c d (marked s) (marked t) x y a.1 in
    let e = marked-delimits s t x y b.1 in (λ i. String.◌∷◌ (b.0 i) (e.0 i), e.1)

-- A hash that is the same for all texts.
abbrev constant : Platform
constant = record {
  quote = marked;
  number_text = λ n. "0";
  text_less = before;
  iso = λ t. "now";
  sha256 = λ s. "h";
}

abbrev row_of : ℕ → String → AuditEventInput → AuditEventRow
row_of id prev e = record {
  id = id;
  event = e;
  prev_hash = prev;
  hash = compute_audit_hash constant prev e;
}

abbrev first_row : AuditEventRow
first_row = row_of 1 "0" (event 10 "task.create")

abbrev changed_row : AuditEventRow
changed_row = row_of 1 "0" (event 10 "task.delete")

abbrev second_row : AuditEventRow
second_row = row_of 2 first_row.hash (event 20 "task.update")

original-valid : check_rows constant "0" (first_row ∷ second_row ∷ []) ≡ none
unfolding check_rows
original-valid = refl

changed-valid : check_rows constant "0" (changed_row ∷ second_row ∷ []) ≡ none
unfolding check_rows
changed-valid = refl

check_rows-Collision_example :
    Same constant (event 10 "task.create") (event 10 "task.delete")
    ⊎ Collision constant
        (hash_text constant "0" (event 10 "task.create"))
        (hash_text constant "0" (event 10 "task.delete"))
check_rows-Collision_example =
    check_rows-Collision constant marked-delimits "0" [] first_row changed_row second_row []
      original-valid changed-valid
