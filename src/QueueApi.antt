-- ===== src/QueueApi.antt =====
-- apps/server/src/api/task-queue.ts: the routes of the task queue, over the operations of task-queue.ts, the checks of a
-- payload and those of a delegated token. `none` for a reply means that the route is not one of the handler's.
pub mod Session
pub mod Effects
pub mod Requests
pub mod Replay
use text.Mathlib.Text.{starts_with}
use mathlib.Core.Option.{map as map_option}
use tea_tax_product.Prelude.{
  ℕ, String, ◌⊎◌, inl, inr, Bool, true, false, not, ◌&&◌, Option, none, some, List, [], ◌∷◌,
  if◌then◌else◌,
}
use tea_tax_product.Prelude.Enum.{◌===◌, string_eq}
use tea_tax_product.Prelude.Int.{ℤ}
use tea_tax_product.Prelude.Number.{Number}
use tea_tax_product.Js.{Value, null, bool, num, str, arr, obj, end, property}
use tea_tax_product.TaskQueue.Types.{
  TaskQueueStatus, TaskQueueRow, pending, claimed, running, submitting, completed, failed, dead,
}
use tea_tax_product.TaskQueue.Operations.{
  enqueue_task, claim_next_task, update_task_status, submit_task_result,
}
use tea_tax_product.TaskQueue.Listing.{list_tasks_for_user}
use tea_tax_product.TaskPayload.{validate_task_payload}
use tea_tax_product.DelegatedToken.{
  DelegatedTokenPayload, Jwt, RevokedToken, verify_delegated_token,
}

-- What verifyJwt reads; what the database makes of a number in an INTEGER column, `none` when it refuses it, and of a number
-- of seconds; new Date of a text, `none` for an invalid date, which the database driver refuses; NOW(), the default of the
-- id column, and the rows that other transactions hold.
pub record QueueServer : Type 0 where
  pub jwt : Jwt
  pub integer_of : Number → Option ℤ
  pub seconds_of : Number → ℕ
  pub date_of : String → Option ℕ
  pub now : ℕ
  pub new_id : String
  pub locked : List String

-- `bearer` is what follows "Bearer " in the header Authorization; `body` is `none` if req.json() throws.
pub record QueueRequest : Type 0 where
  pub method : String
  pub path : List String
  pub bearer : Option String
  pub user : Option String
  pub body : Option Value

pub record QueueDb : Type 0 where
  pub tasks : List TaskQueueRow
  pub revoked : List RevokedToken

pub data QueueReply : Type 0 where
  error : (status : ℕ) (message : String) → QueueReply
  done : (task_id : String) → QueueReply
  row : TaskQueueRow → QueueReply
  rows : List TaskQueueRow → QueueReply
  -- the handler throws
  thrown : QueueReply

-- WHERE id = …
unfoldable pub find_task : String → List TaskQueueRow → Option TaskQueueRow
find_task id [] = none
find_task id (t ∷ ts) = let rest = find_task id ts in if t.id === id then some t else rest

-- The rows and the reply of a statement that returns at most one row.
unfoldable pub returned :
    ℕ → String → QueueDb → List TaskQueueRow × Option TaskQueueRow → QueueReply × QueueDb
returned status message db (ts, none) =
    (error status message, record { tasks = ts; revoked = db.revoked })
returned status message db (ts, some t) = (row t, record { tasks = ts; revoked = db.revoked })

-- After the token has been verified, which has consumed it.
unfoldable pub store_result : QueueServer → String → Option Value → QueueDb → QueueReply × QueueDb
unfolding submit_task_result
store_result server id none db = (error 400 "Invalid JSON body", db)
store_result server id (some v) db = (
  done id,
  record {
    tasks = (submit_task_result server.now (record { id = id; result = v }) db.tasks).0;
    revoked = db.revoked;
  },
)

unfoldable pub verified :
    QueueServer
    → String
    → Option Value
    → List TaskQueueRow
    → (String ⊎ DelegatedTokenPayload) × List RevokedToken
    → QueueReply × QueueDb
unfolding store_result
verified server id body tasks (inl message, revoked) =
    (error 401 message, record { tasks = tasks; revoked = revoked })
verified server id body tasks (inr payload, revoked) =
    store_result server id body (record { tasks = tasks; revoked = revoked })

-- POST /api/tasks/:id/result
unfoldable pub submit_with_token :
    QueueServer → String → QueueRequest → QueueDb → QueueReply × QueueDb
unfolding find_task verify_delegated_token verified
submit_with_token server id req db = elim req.bearer [
  | none ↦ (error 401 "Unauthorized", db)
  | some token ↦ elim (find_task id db.tasks) [
    | none ↦ (error 404 "Task not found", db)
    | some t ↦ verified server id req.body db.tasks (
        verify_delegated_token server.jwt token
          (record {
            expected_task_id = id;
            expected_agent_type = t.agent_type;
            expected_created_by = t.created_by;
          })
          db.revoked)
  ]
]

-- /^\/api\/tasks\/([^/]+)\/result$/
unfoldable pub match_result : List String → Option String
match_result (root ∷ api ∷ tasks ∷ id ∷ result ∷ []) =
    if root === "" && api === "api" && tasks === "tasks" && not (id === "") && result === "result"
    then some id
    else none
match_result _ = none

unfoldable pub handle_task_queue_result_request :
    QueueServer → QueueRequest → QueueDb → Option (QueueReply × QueueDb)
unfolding match_result submit_with_token
handle_task_queue_result_request server req db = elim (match_result req.path) [
  | none ↦ none
  | some id ↦ if req.method === "POST" then some (submit_with_token server id req db) else none
]
