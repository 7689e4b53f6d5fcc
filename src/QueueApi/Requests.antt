-- ===== src/QueueApi/Requests.antt =====
-- Every request under /api/tasks-queue, whichever route it takes.
use mathlib.Core.Option.{some_inj}
use mathlib.Core.Path.{subst}
use tea_tax_product.Prelude.{
  ◌≡◌, refl, String, Bool, true, false, Option, none, some, ◌⊎◌, inl, inr, arith, Option-cases,
  if◌then◌else◌,
}
use tea_tax_product.Prelude.Enum.{string_eq}
use tea_tax_product.TaskQueue.Listing.{list_tasks_for_user}
use tea_tax_product.QueueApi.{QueueServer, QueueRequest, QueueDb, QueueReply, error, rows}
use tea_tax_product.QueueApi.Session.{session_route, handle_tasks_queue_request}
use tea_tax_product.QueueApi.Effects.{
  Sound, quiet, enqueue_request-Sound, claim_request-Sound, status_request-Sound,
  result_request-Sound,
}

module _ (server : QueueServer) (user : String) (req : QueueRequest) (db : QueueDb) where
  branch-Sound :
      (b : Bool) (x : QueueReply × QueueDb) (rest : Option (QueueReply × QueueDb))
      → Sound server user req db x
      → ((r : QueueReply × QueueDb) → rest ≡ some r → Sound server user req db r)
      → (r : QueueReply × QueueDb) → (if b then some x else rest) ≡ some r
      → Sound server user req db r
  branch-Sound true x rest s h r e = subst (Sound server user req db) (some_inj.0 e) s
  branch-Sound false x rest s h r e = h r e

  no_route-Sound :
      (b : Bool) (rest : Option (QueueReply × QueueDb))
      → ((r : QueueReply × QueueDb) → rest ≡ some r → Sound server user req db r)
      → (r : QueueReply × QueueDb) → (if b then none else rest) ≡ some r
      → Sound server user req db r
  no_route-Sound true rest h r e = absurd (ground arith)
  no_route-Sound false rest h r e = h r e

  session_route-Sound :
      (r : QueueReply × QueueDb)
      → session_route server user req db ≡ some r
      → Sound server user req db r
  unfolding session_route
  session_route-Sound =
      branch-Sound _ _ _ (quiet (rows (list_tasks_for_user user 50 db.tasks)) refl) (
        branch-Sound _ _ _ (enqueue_request-Sound server user req db) (
          branch-Sound _ _ _ (claim_request-Sound server user req db) (
            no_route-Sound _ _ (
              branch-Sound _ _ _ (status_request-Sound server user req db) (
                branch-Sound _ _ none (result_request-Sound server user req db)
                  (λ r e. absurd (ground arith)))))))

-- The test of the path and that of the session, which precede the routes.
module _ (server : QueueServer) (req : QueueRequest) (db : QueueDb) (r : QueueReply × QueueDb) where
  no_session :
      req.user ≡ none
      → handle_tasks_queue_request server req db ≡ some r
      → r ≡ (error 401 "Unauthorized", db)
  unfolding handle_tasks_queue_request
  no_session u h = ground (arith, u)

  with_session :
      (user : String)
      → req.user ≡ some user
      → handle_tasks_queue_request server req db ≡ some r
      → session_route server user req db ≡ some r
  unfolding handle_tasks_queue_request
  with_session user u h = ground (arith, u)

-- A request under /api/tasks-queue without a session is answered with 401 and changes nothing. With one, a reply that is
-- an error, a list, or a thrown exception comes with unchanged tables; a reply with a task comes with one operation of the
-- queue that returned that task: an enqueue with the user as creator, the key, agent type and job type of the body, and its
-- payload, which passed the check; a claim by the user for the agent type of the body; an update of the task of the path to
-- the status of the body; or the submission of the body's result for the task of the path. The tokens in the table of revoked tokens stay as they are.
pub handle_tasks_queue_request-Sound :
    (server : QueueServer) (req : QueueRequest) (db : QueueDb) (r : QueueReply × QueueDb)
    → handle_tasks_queue_request server req db ≡ some r
    → ((req.user ≡ none) × (r ≡ (error 401 "Unauthorized", db)))
      ⊎ ((user : String) × ((req.user ≡ some user) × Sound server user req db r))
handle_tasks_queue_request-Sound server req db r h = elim (Option-cases req.user) [
  | inl u ↦ inl (u, no_session server req db r u h)
  | inr (user, u) ↦
      inr (
        user,
        (u, session_route-Sound server user req db r (with_session server req db r user u h)),
      )
]
