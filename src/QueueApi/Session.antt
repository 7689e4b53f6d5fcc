-- ===== src/QueueApi/Session.antt =====
-- The routes under /api/tasks-queue, for a user with a session.
use text.Mathlib.Text.{starts_with}
use mathlib.Core.Option.{map as map_option}
use tea_tax_product.Prelude.{
  ℕ, zero, suc, String, Bool, false, ◌&&◌, Option, none, some, List, [], ◌∷◌, if◌then◌else◌,
}
use tea_tax_product.Prelude.Enum.{◌===◌, string_eq}
use tea_tax_product.Prelude.Int.{ℤ}
use tea_tax_product.Prelude.Number.{Number}
use tea_tax_product.Js.{Value, null, num, str, obj, end, property}
use tea_tax_product.TaskQueue.Types.{
  TaskQueueStatus, pending, claimed, running, submitting, completed, failed, dead, EnqueueOptions,
}
use tea_tax_product.TaskQueue.Operations.{
  enqueue_task, claim_next_task, update_task_status, submit_task_result,
}
use tea_tax_product.TaskQueue.Listing.{list_tasks_for_user}
use tea_tax_product.TaskPayload.{validate_task_payload}
use tea_tax_product.QueueApi.{
  QueueServer, QueueRequest, QueueDb, QueueReply, error, row, rows, thrown, returned,
}

-- typeof v === 'string', and typeof v === 'number'
unfoldable pub string_of : Option Value → Option String
string_of (some (str s)) = some s
string_of _ = none

unfoldable pub number_of : Option Value → Option Number
number_of (some (num n)) = some n
number_of _ = none

-- A required text of the body: !v || typeof v !== 'string' answers with 400.
unfoldable pub required_text :
    Value → String → String → QueueDb → (String → QueueReply × QueueDb) → QueueReply × QueueDb
unfolding string_of property
required_text body key message db next = elim (string_of (property body key)) [
  | none ↦ (error 400 message, db)
  | some s ↦ if s === "" then (error 400 message, db) else next s
]

-- The parsed body, whose fields the handler takes apart: that throws for null.
unfoldable pub parsed :
    Option Value → QueueDb → (Value → QueueReply × QueueDb) → QueueReply × QueueDb
parsed none db next = (error 400 "Invalid JSON body", db)
parsed (some null) db next = (thrown, db)
parsed (some v) db next = next v

-- A value that the caller gives may be one that the statement fails on, and then the handler throws.
unfoldable pub converted {ℓ} :
    {A B : Type ℓ}
    → (A → Option B)
    → Option A
    → QueueDb
    → (Option B → QueueReply × QueueDb)
    → QueueReply × QueueDb
converted convert none db next = next none
converted convert (some a) db next = elim (convert a) [
  | none ↦ (thrown, db)
  | some b ↦ next (some b)
]

-- payload ?? {}
unfoldable pub safe_payload : Option Value → Value
safe_payload none = obj end
safe_payload (some null) = obj end
safe_payload (some v) = v

unfoldable pub enqueue_options :
    String
    → (key agent_type job_type : String) → (priority max_attempts : Option ℤ) → Value
    → EnqueueOptions
unfolding safe_payload string_of property
enqueue_options user key agent_type job_type priority max_attempts body = record {
  idempotency_key = key;
  agent_type = agent_type;
  job_type = job_type;
  payload = some (safe_payload (property body "payload"));
  correlation_id = string_of (property body "correlation_id");
  created_by = user;
  priority = priority;
  max_attempts = max_attempts;
}

-- POST /api/tasks-queue
unfoldable pub enqueue_request :
    QueueServer → String → Option Value → QueueDb → QueueReply × QueueDb
unfolding parsed required_text converted enqueue_options number_of safe_payload
    validate_task_payload enqueue_task
enqueue_request server user body db = parsed body db (λ v.
    required_text v "idempotency_key" "idempotency_key is required" db (λ key.
      required_text v "agent_type" "agent_type is required" db (λ agent_type.
        required_text v "job_type" "job_type is required" db (λ job_type.
          elim (validate_task_payload (safe_payload (property v "payload"))) [
            | some message ↦ (error 400 message, db)
            | none ↦ converted server.integer_of (number_of (property v "priority")) db (λ priority.
                converted server.integer_of (number_of (property v "max_attempts")) db (λ attempts.
                  let e =
                    enqueue_task server.now server.new_id
                      (enqueue_options user key agent_type job_type priority attempts v) db.tasks in
                  (row e.1, record { tasks = e.0; revoked = db.revoked })))
          ]))))

-- POST /api/tasks-queue/claim
unfoldable pub claim_request : QueueServer → String → Option Value → QueueDb → QueueReply × QueueDb
unfolding parsed required_text string_of number_of returned claim_next_task property
claim_request server user body db = parsed body db (λ v.
    required_text v "agent_type" "agent_type is required" db (λ agent_type.
      returned 204 "No task available" db (
        claim_next_task server.now server.locked
          (record {
            agent_type = agent_type;
            claimed_by = user;
            delegated_token = string_of (property v "delegated_token");
            claim_ttl_seconds =
                map_option server.seconds_of (number_of (property v "claim_ttl_seconds"));
          })
          db.tasks)))

-- allowedStatuses.includes(status)
unfoldable pub status_of : Option Value → Option TaskQueueStatus
status_of (some (str s)) =
    if s === "pending"
    then some pending
    else if s === "claimed"
    then some claimed
    else if s === "running"
    then some running
    else if s === "submitting"
    then some submitting
    else if s === "completed"
    then some completed
    else if s === "failed"
    then some failed
    else if s === "dead"
    then some dead
    else none
status_of _ = none

-- PATCH /api/tasks-queue/:id
unfoldable pub status_request : QueueServer → String → Option Value → QueueDb → QueueReply × QueueDb
unfolding parsed converted status_of string_of returned update_task_status property
status_request server id body db = parsed body db (λ v. elim (status_of (property v "status")) [
  | none ↦ (
    error 400
        "status must be one of: pending, claimed, running, submitting, completed, failed, dead",
    db,
  )
  | some status ↦
      converted server.date_of (string_of (property v "next_retry_at")) db (λ next_retry_at.
        returned 404 "Not found" db (
          update_task_status server.now
            (record {
              id = id;
              status = status;
              error_message = string_of (property v "error_message");
              next_retry_at = next_retry_at;
            })
            db.tasks))
])

-- POST /api/tasks-queue/:id/result, with `result` of the body
unfoldable pub result_value : QueueServer → String → QueueDb → Option Value → QueueReply × QueueDb
unfolding returned submit_task_result
result_value server id db (some (obj fs)) =
    returned 404 "Not found" db
      (submit_task_result server.now (record { id = id; result = obj fs }) db.tasks)
result_value server id db _ = (error 400 "result must be a JSON object", db)

unfoldable pub result_request : QueueServer → String → Option Value → QueueDb → QueueReply × QueueDb
unfolding parsed result_value property
result_request server id body db =
    parsed body db (λ v. result_value server id db (property v "result"))

-- url.pathname.split('/')[n]; no part is as falsy as an empty one.
abbrev pub part : List String → ℕ → String
part [] n = ""
part (p ∷ ps) zero = p
part (p ∷ ps) (suc n) = part ps n

-- url.pathname === '/api/tasks-queue', and url.pathname.startsWith('/api/tasks-queue')
unfoldable pub is_queue : List String → Bool
is_queue (root ∷ api ∷ queue ∷ []) = root === "" && api === "api" && queue === "tasks-queue"
is_queue _ = false

unfoldable pub under_queue : List String → Bool
under_queue (root ∷ api ∷ queue ∷ rest) =
    root === "" && api === "api" && starts_with queue "tasks-queue"
under_queue _ = false

unfoldable pub session_route :
    QueueServer → String → QueueRequest → QueueDb → Option (QueueReply × QueueDb)
unfolding is_queue list_tasks_for_user enqueue_request claim_request status_request result_request
session_route server user req db =
    if req.method === "GET" && is_queue req.path
    then some (rows (list_tasks_for_user user 50 db.tasks), db)
    else if req.method === "POST" && is_queue req.path
    then some (enqueue_request server user req.body db)
    else if req.method === "POST" && part req.path 3 === "claim" && part req.path 4 === ""
    then some (claim_request server user req.body db)
    else if part req.path 3 === ""
    then none
    else if req.method === "PATCH" && part req.path 4 === ""
    then some (status_request server (part req.path 3) req.body db)
    else if req.method === "POST" && part req.path 4 === "result"
    then some (result_request server (part req.path 3) req.body db)
    else none

unfoldable pub handle_tasks_queue_request :
    QueueServer → QueueRequest → QueueDb → Option (QueueReply × QueueDb)
unfolding under_queue session_route
handle_tasks_queue_request server req db =
    if under_queue req.path
    then elim req.user [
      | none ↦ some (error 401 "Unauthorized", db)
      | some user ↦ session_route server user req db
    ]
    else none
