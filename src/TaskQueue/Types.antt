-- ===== src/TaskQueue/Types.antt =====
-- The declarations of task-queue.ts. Times are microseconds, the resolution of a TIMESTAMP; the INTEGER
-- columns that a caller chooses are signed.
use tea_tax_product.Prelude.{ℕ, String, Option}
use tea_tax_product.Prelude.Enum.{StrictEq, discrete_eq}
use tea_tax_product.Prelude.Int.{ℤ}
use tea_tax_product.Js.{Value}

pub data TaskQueueStatus : Type 0 where
  pending claimed running submitting completed failed dead : TaskQueueStatus

unfoldable pub TaskQueueStatus-discrete : Discrete TaskQueueStatus
TaskQueueStatus-discrete = hlevel

instance abbrev pub task_queue_status_eq : StrictEq TaskQueueStatus
task_queue_status_eq = discrete_eq TaskQueueStatus-discrete

pub record TaskQueueRow : Type 0 where
  pub id : String
  pub idempotency_key : String
  pub agent_type : String
  pub job_type : String
  pub status : TaskQueueStatus
  pub payload : Value
  pub correlation_id : Option String
  pub created_by : String
  pub claimed_by : Option String
  pub claimed_at : Option ℕ
  pub claim_expires_at : Option ℕ
  pub delegated_token : Option String
  pub result : Option Value
  pub error_message : Option String
  pub attempt : ℕ
  pub max_attempts : ℤ
  pub next_retry_at : Option ℕ
  pub priority : ℤ
  pub created_at : ℕ
  pub updated_at : ℕ

pub record EnqueueOptions : Type 0 where
  pub idempotency_key : String
  pub agent_type : String
  pub job_type : String
  pub payload : Option Value
  pub correlation_id : Option String
  pub created_by : String
  pub priority : Option ℤ
  pub max_attempts : Option ℤ

pub record ClaimOptions : Type 0 where
  pub agent_type : String
  pub claimed_by : String
  pub delegated_token : Option String
  pub claim_ttl_seconds : Option ℕ

pub record UpdateStatusOptions : Type 0 where
  pub id : String
  pub status : TaskQueueStatus
  pub error_message : Option String
  pub next_retry_at : Option ℕ

pub record SubmitResultOptions : Type 0 where
  pub id : String
  pub result : Value

pub record RecoveredTaskRow : Type 0 where
  pub id : String
  pub status : TaskQueueStatus
  pub attempt : ℕ
  pub agent_type : String
  pub job_type : String
