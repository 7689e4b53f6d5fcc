-- ===== src/QueueApi/Replay.antt =====
-- A delegated token submits one result.
use tea_tax_product.Prelude.{
  ◌≡◌, refl, sym, ap, ◌∙◌, String, ◌⊎◌, inl, inr, true, Option, none, some, List, arith,
  Option-cases,
}
use mathlib.Core.Path.{subst}
use tea_tax_product.Js.{Value}
use tea_tax_product.TaskQueue.Types.{TaskQueueRow}
use tea_tax_product.DelegatedToken.{
  DelegatedTokenPayload, RevokedToken, VerifyDelegatedTokenOptions, verify_delegated_token,
  is_revoked,
}
use tea_tax_product.DelegatedToken.Once.{verify_delegated_token-once}
use tea_tax_product.QueueApi.{
  QueueServer, QueueRequest, QueueDb, error, done, find_task, verified, store_result,
  submit_with_token,
}

-- What the handler asks of a token for the task `t`.
abbrev expected : String → TaskQueueRow → VerifyDelegatedTokenOptions
expected id t = record {
  expected_task_id = id;
  expected_agent_type = t.agent_type;
  expected_created_by = t.created_by;
}

verified-done :
    (server : QueueServer) (id x : String) (body : Option Value) (tasks : List TaskQueueRow)
    (v : (String ⊎ DelegatedTokenPayload) × List RevokedToken)
    → (verified server id body tasks v).0 ≡ done x
    → (p : DelegatedTokenPayload) × ((v.0 ≡ inr p)
        × ((verified server id body tasks v).1.revoked ≡ v.1))
unfolding verified store_result
verified-done server id x body tasks (inl message, revoked) h = absurd (ground arith)
verified-done server id x none tasks (inr p, revoked) h = absurd (ground arith)
verified-done server id x (some b) tasks (inr p, revoked) h = (p, (refl, refl))

module _ (server : QueueServer) (id : String) (req : QueueRequest) (db : QueueDb)
    (token : String) where
  submit_with_token-found :
      (t : TaskQueueRow)
      → req.bearer ≡ some token
      → find_task id db.tasks ≡ some t
      → submit_with_token server id req db
        ≡ verified server id req.body db.tasks
            (verify_delegated_token server.jwt token (expected id t) db.revoked)
  unfolding submit_with_token
  submit_with_token-found t b f = rw (b, submit_with_token) rw f refl

  submit_with_token-missing :
      req.bearer ≡ some token
      → find_task id db.tasks ≡ none
      → submit_with_token server id req db ≡ (error 404 "Task not found", db)
  unfolding submit_with_token
  submit_with_token-missing b f = rw (b, submit_with_token) rw f refl

  -- The token was accepted for the task, and the table of revoked tokens has it from then on.
  submit_with_token-done :
      (x : String)
      → req.bearer ≡ some token
      → (submit_with_token server id req db).0 ≡ done x
      → (t : TaskQueueRow) × ((p : DelegatedTokenPayload) × (((verify_delegated_token server.jwt
                token
                (expected id t)
                db.revoked).0
              ≡ inr p)
            × ((submit_with_token server id req db).1.revoked
                ≡ (verify_delegated_token server.jwt token (expected id t) db.revoked).1)))
  submit_with_token-done x b h = elim (Option-cases (find_task id db.tasks)) [
    | inl f ↦
        absurd (
          subst (λ r. r.0 ≡ done x → ⊥) (sym (submit_with_token-missing b f)) (λ e. ground arith) h)
    | inr (t, f) ↦
        let eq = submit_with_token-found t b f in
        let v = verify_delegated_token server.jwt token (expected id t) db.revoked in
        let d = verified-done server id x req.body db.tasks v (sym (ap (λ r. r.0) eq) ∙ h) in
        (t, (d.0, (d.1.0, ap (λ r. r.1.revoked) eq ∙ d.1.1)))
  ]

verified-refused :
    (server : QueueServer) (id error_text : String) (req : QueueRequest) (db : QueueDb)
    (v : (String ⊎ DelegatedTokenPayload) × List RevokedToken)
    → v ≡ (inl error_text, db.revoked)
    → verified server id req.body db.tasks v ≡ (error 401 error_text, db)
unfolding verified
verified-refused server id error_text req db v e = ap (verified server id req.body db.tasks) e

-- After a result was submitted with a token, every later request with the same token changes nothing, whatever its task and
-- its body are, under whatever keys and at whatever time, and whatever other requests have made of the tables in between, as
-- long as the table of revoked tokens still has the jti, which the first request put there. It is answered with 401, or with
-- 404 if its task is not in the table. The token encodes the same claims both times.
pub submit_with_token-once :
    (server later : QueueServer) (id other x : String) (req again : QueueRequest) (db db2 : QueueDb)
    (token : String)
    → req.bearer ≡ some token
    → again.bearer ≡ some token
    → later.jwt.payload_of token ≡ server.jwt.payload_of token
    → (submit_with_token server id req db).0 ≡ done x
    → (is_revoked (server.jwt.payload_of token).jti (submit_with_token server id req db).1.revoked
          ≡ true
        → is_revoked (server.jwt.payload_of token).jti db2.revoked ≡ true)
    → ((message : String) × (submit_with_token later other again db2 ≡ (error 401 message, db2)))
      ⊎ (submit_with_token later other again db2 ≡ (error 404 "Task not found", db2))
submit_with_token-once server later id other x req again db db2 token b b2 same h kept =
    elim (Option-cases (find_task other db2.tasks)) [
      | inl f ↦ inr (submit_with_token-missing later other again db2 token b2 f)
      | inr (t2, f) ↦
          let d = submit_with_token-done server id req db token x b h in
          let once =
            verify_delegated_token-once server.jwt later.jwt token (expected id d.0)
              (expected other t2) db.revoked db2.revoked d.1.0 same d.1.1.0
              (λ e. kept (ap (is_revoked (server.jwt.payload_of token).jti) d.1.1.1 ∙ e)) in
          inl (
            once.0,
            submit_with_token-found later other again db2 token t2 b2 f
                ∙ verified-refused later other once.0 again db2
                    (verify_delegated_token later.jwt token (expected other t2) db2.revoked) once.1,
          )
    ]
