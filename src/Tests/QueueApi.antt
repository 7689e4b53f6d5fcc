-- ===== src/Tests/QueueApi.antt =====
-- The routes of the task queue at one task of the user u-1, with the tokens of Tests.DelegatedToken.
use tea_tax_product.Prelude.{
  ℕ, String, ◌≡◌, refl, ◌⊎◌, true, inl, inr, Bool, true, false, Option, none, some, List, [], ◌∷◌,
  ◌++◌,
}
use tea_tax_product.Prelude.Int.{pos}
use tea_tax_product.Js.{Value, str, obj, field, end}
use tea_tax_product.TaskQueue.Types.{dead}
use tea_tax_product.TaskQueue.Operations.{new_row, enqueue_task}
use tea_tax_product.Tests.TaskQueue.{request}
use tea_tax_product.Tests.DelegatedToken.{signed}
use tea_tax_product.DelegatedToken.{is_revoked}
use tea_tax_product.QueueApi.{
  QueueServer, QueueRequest, QueueDb, QueueReply, error, done, row, submit_with_token,
}
use tea_tax_product.QueueApi.Session.{handle_tasks_queue_request}
use tea_tax_product.QueueApi.Effects.{Sound}
use tea_tax_product.QueueApi.Replay.{submit_with_token-once}
use tea_tax_product.QueueApi.Requests.{handle_tasks_queue_request-Sound}

abbrev server : QueueServer
server = record {
  jwt = signed 10;
  integer_of = λ n. some (pos 5);
  seconds_of = λ n. 60;
  date_of = λ s. none;
  now = 50;
  new_id = "t-9";
  locked = [];
}

abbrev table : QueueDb
table = record { tasks = new_row 10 "t-1" (request "a") ∷ []; revoked = [] }

abbrev with_token : Option Value → QueueRequest
with_token body = record {
  method = "POST";
  path = "" ∷ "api" ∷ "tasks" ∷ "t-1" ∷ "result" ∷ [];
  bearer = some "x";
  user = none;
  body = body;
}

first_result : (submit_with_token server "t-1" (with_token (some (str "r"))) table).0 ≡ done "t-1"
unfolding submit_with_token new_row tea_tax_product.Prelude.any
first_result = refl

abbrev after_result : QueueDb
after_result = record {
  tasks = table.tasks;
  revoked =
      (submit_with_token server "t-1" (with_token (some (str "r"))) table).1.revoked
      ++ record { jti = "j-2"; expires_at = 7 } ∷ [];
}

after_result-kept : is_revoked "j-1" after_result.revoked ≡ true
unfolding submit_with_token tea_tax_product.Prelude.any new_row
after_result-kept = refl

submit_with_token-once_example :
    ((message : String) × (submit_with_token server "t-1" (with_token (some (str "s"))) after_result
        ≡ (error 401 message, after_result)))
    ⊎ (submit_with_token server "t-1" (with_token (some (str "s"))) after_result
        ≡ (error 404 "Task not found", after_result))
submit_with_token-once_example =
    submit_with_token-once server server "t-1" "t-1" "t-1" (with_token (some (str "r")))
      (with_token (some (str "s"))) table after_result "x" refl refl refl first_result
      (λ e. after_result-kept)

-- A body that does not parse is answered with 400, and the token is used up.
malformed :
    (submit_with_token server "t-1"
      (with_token (some (str "r")))
      (submit_with_token server "t-1" (with_token none) table).1).0
    ≡ error 401 "Token revoked"
unfolding submit_with_token new_row tea_tax_product.Prelude.any
malformed = refl

abbrev session : String → List String → Value → QueueRequest
session method path body = record {
  method = method;
  path = path;
  bearer = none;
  user = some "u-2";
  body = some body;
}

abbrev create : QueueRequest
create = session "POST" ("" ∷ "api" ∷ "tasks-queue" ∷ []) (
    obj (
      field "idempotency_key" (str "k")
        (field "agent_type" (str "coding") (field "job_type" (str "extract") end))))

abbrev created : QueueReply × QueueDb
created =
    let e =
      enqueue_task 50 "t-9"
        (record {
          idempotency_key = "k";
          agent_type = "coding";
          job_type = "extract";
          payload = some (obj end);
          correlation_id = none;
          created_by = "u-2";
          priority = none;
          max_attempts = none;
        })
        table.tasks in
    (row e.1, record { tasks = e.0; revoked = [] })

create-created : handle_tasks_queue_request server create table ≡ some created
unfolding handle_tasks_queue_request
create-created = refl

handle_tasks_queue_request-Sound_example :
    ((create.user ≡ none) × (created ≡ (error 401 "Unauthorized", table)))
    ⊎ ((user : String) × ((create.user ≡ some user) × Sound server user create table created))
handle_tasks_queue_request-Sound_example =
    handle_tasks_queue_request-Sound server create table created create-created

-- The user u-2 kills the task of u-1.
stranger :
    handle_tasks_queue_request server
      (session "PATCH"
        ("" ∷ "api" ∷ "tasks-queue" ∷ "t-1" ∷ [])
        (obj (field "status" (str "dead") end)))
      table
    ≡ some (
      row (record (new_row 10 "t-1" (request "a")) { status = dead; updated_at = 50 }),
      record {
        tasks = record (new_row 10 "t-1" (request "a")) { status = dead; updated_at = 50 } ∷ [];
        revoked = [];
      },
    )
unfolding handle_tasks_queue_request tea_tax_product.Prelude.filter
    tea_tax_product.TaskQueue.Operations.set_status
stranger = refl
