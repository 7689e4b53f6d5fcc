-- ===== src/Audit/Tampering.antt =====
-- What verification notices.
use tea_tax_product.Prelude.{
  ◌≡◌, ◌≢◌, sym, ap, ◌∙◌, ◌⊎◌, inl, inr, String, none, List, [], ◌∷◌, ◌++◌, arith, Bool-cases,
}
use Prim.Native.String.{◌++◌ as str_append}
use text.Mathlib.TextLemmas.{append_cancel_left}
use mathlib.Core.Bool.{true≢false}
use tea_tax_product.Prelude.Enum.{◌===◌, string_eq}
use tea_tax_product.Audit.{
  AuditEventInput, AuditEventRow, Platform, check_rows, compute_audit_hash, hash_text, texts,
  canonical_json,
}

-- Each row of a valid chain builds on the hash before it and has the hash of its own event.
check_rows-head :
    (p : Platform) (g : String) (r : AuditEventRow) (rows : List AuditEventRow)
    → check_rows p g (r ∷ rows) ≡ none
    → (r.prev_hash ≡ g)
      × ((compute_audit_hash p g r.event ≡ r.hash) × (check_rows p r.hash rows ≡ none))
unfolding check_rows
check_rows-head p g r rows h = ground (
  arith,
  string_eq.test_iff r.prev_hash g,
  string_eq.test_iff (compute_audit_hash p r.prev_hash r.event) r.hash,
)

-- The hashes of the two events after the same rows are equal.
check_rows-same_hash :
    (p : Platform) (g : String) (before : List AuditEventRow) (r other next : AuditEventRow)
    (rest : List AuditEventRow)
    → check_rows p g (before ++ r ∷ next ∷ rest) ≡ none
    → check_rows p g (before ++ other ∷ next ∷ rest) ≡ none
    → compute_audit_hash p r.prev_hash r.event ≡ compute_audit_hash p r.prev_hash other.event
check_rows-same_hash p g [] r other next rest h k =
    let a = check_rows-head p g r (next ∷ rest) h in
    let b = check_rows-head p g other (next ∷ rest) k in
    let c = check_rows-head p r.hash next rest a.1.1 in
    let d = check_rows-head p other.hash next rest b.1.1 in
    ap (λ x. compute_audit_hash p x r.event) a.0
    ∙ a.1.0
    ∙ sym c.0
    ∙ d.0
    ∙ sym b.1.0
    ∙ ap (λ x. compute_audit_hash p x other.event) (sym a.0)
check_rows-same_hash p g (x ∷ before) r other next rest h k =
    check_rows-same_hash p x.hash before r other next rest
      (check_rows-head p g x (before ++ r ∷ next ∷ rest) h).1.1
      (check_rows-head p g x (before ++ other ∷ next ∷ rest) k).1.1

-- The part of the hashed text that follows the four texts of an event: `before`, `after` and the time.
abbrev pub details : Platform → AuditEventInput → String
details p e = texts (
    ",\"before\":"
    ∷ canonical_json p e.before
    ∷ ",\"after\":"
    ∷ canonical_json p e.after
    ∷ ",\"ts\":"
    ∷ p.quote (p.iso e.ts)
    ∷ "}"
    ∷ [])

-- Two events that agree in what is hashed of them.
pub record Same (p : Platform) (a b : AuditEventInput) : Type 0 where
  pub actor_id : a.actor_id ≡ b.actor_id
  pub action : a.action ≡ b.action
  pub entity_type : a.entity_type ≡ b.entity_type
  pub entity_id : a.entity_id ≡ b.entity_id
  pub others : details p a ≡ details p b

-- Two different texts with one hash.
pub record Collision (p : Platform) (x y : String) : Type 0 where
  pub differ : x ≢ y
  pub same : p.sha256 x ≡ p.sha256 y

module _ (p : Platform)
    (delimits : (s t x y : String)
      → str_append (p.quote s) x ≡ str_append (p.quote t) y
      → (s ≡ t) × (x ≡ y)) where
  hash_text-Same :
      (prev : String) (a b : AuditEventInput) → hash_text p prev a ≡ hash_text p prev b → Same p a b
  unfolding hash_text texts
  hash_text-Same prev a b h =
      let start = append_cancel_left "{\"actor_id\":" _ _ (append_cancel_left prev _ _ h) in
      let actor = delimits _ _ _ _ start in
      let action = delimits _ _ _ _ (append_cancel_left ",\"action\":" _ _ actor.1) in
      let type = delimits _ _ _ _ (append_cancel_left ",\"entity_type\":" _ _ action.1) in
      let id = delimits _ _ _ _ (append_cancel_left ",\"entity_id\":" _ _ type.1) in
      record {
        actor_id = actor.0;
        action = action.0;
        entity_type = type.0;
        entity_id = id.0;
        others = id.1;
      }

  -- Let a text's JSON form tell where it ends and which text it is. If a chain stays valid when one of its rows, which is not
  -- the last, is exchanged for another, then two different texts with the same SHA-256 have been found, or the events of the
  -- two rows have the same actor, action, entity type and entity, and the same JSON texts of their other hashed fields.
  pub check_rows-Collision :
      (g : String) (before : List AuditEventRow) (r other next : AuditEventRow)
      (rest : List AuditEventRow)
      → check_rows p g (before ++ r ∷ next ∷ rest) ≡ none
      → check_rows p g (before ++ other ∷ next ∷ rest) ≡ none
      → Same p r.event other.event
        ⊎ Collision p (hash_text p r.prev_hash r.event) (hash_text p r.prev_hash other.event)
  unfolding compute_audit_hash
  check_rows-Collision g before r other next rest h k =
      let x = hash_text p r.prev_hash r.event in
      let y = hash_text p r.prev_hash other.event in
      elim (Bool-cases (x === y)) [
        | inl e ↦
            inl (hash_text-Same r.prev_hash r.event other.event ((string_eq.test_iff x y).0 e))
        | inr e ↦ inr (record {
          differ = λ q. true≢false (sym ((string_eq.test_iff x y).1 q) ∙ e);
          same = check_rows-same_hash p g before r other next rest h k;
        })
      ]
