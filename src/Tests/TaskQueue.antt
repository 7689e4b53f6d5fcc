-- ===== src/Tests/TaskQueue.antt =====
-- The task queue at a small table.
use tea_tax_product.Prelude.{
  ℕ, String, ◌≡◌, refl, true, false, Option, none, some, List, [], ◌∷◌, map, arith, ◌≤◌, ◌↔◌,
  length, all,
}
use tea_tax_product.Prelude.Enum.{◌===◌, Distinct, includes, string_eq}
use tea_tax_product.TaskQueue.Types.{TaskQueueRow, EnqueueOptions, ClaimOptions}
use tea_tax_product.TaskQueue.Operations.{
  new_row, claim_row, enqueue_task, claim_next_task, recover_stale_claims,
}
use tea_tax_product.TaskQueue.Claims.{ids_of, Claims, claim_next_task-Claims}
use tea_tax_product.TaskQueue.Winner.{claim_next_task-once}
use tea_tax_product.TaskQueue.Enqueue.{enqueue_task-again}
use tea_tax_product.TaskPayload.{validate_task_payload, denied_keys, validate_task_payload-accepts}
use tea_tax_product.Js.{obj, field, str, end}
use tea_tax_product.TaskQueue.Recovery.{recover_stale_claims-again}
use tea_tax_product.TaskQueue.StateMachine.{
  Reachable, start, step, enqueue, claim, recover, WellFormed, Reachable-WellFormed,
}

abbrev pub request : String → EnqueueOptions
request key = record {
  idempotency_key = key;
  agent_type = "coding";
  job_type = "extract";
  payload = none;
  correlation_id = none;
  created_by = "u-1";
  priority = none;
  max_attempts = none;
}

abbrev worker : ClaimOptions
worker = record {
  agent_type = "coding";
  claimed_by = "w-1";
  delegated_token = none;
  claim_ttl_seconds = some 1;
}

-- The second one is older.
abbrev rows : List TaskQueueRow
rows = new_row 20 "t-1" (request "a") ∷ new_row 10 "t-2" (request "b") ∷ []

rows-Distinct : Distinct (ids_of rows)
unfolding includes new_row
rows-Distinct = (refl, (refl, tt))

claim_next_task-Claims_example : Claims 30 [] worker rows (claim_next_task 30 [] worker rows)
claim_next_task-Claims_example = claim_next_task-Claims 30 [] worker rows rows-Distinct

first_claim :
    (claim_next_task 30 [] worker rows).1
    ≡ some (claim_row 30 worker (new_row 10 "t-2" (request "b")))
unfolding claim_next_task tea_tax_product.Prelude.filter
    tea_tax_product.TaskQueue.Operations.is_claimable new_row
    tea_tax_product.TaskQueue.Types.TaskQueueStatus-discrete includes
first_claim = refl

second_claim :
    (claim_next_task 40 [] worker (claim_next_task 30 [] worker rows).0).1
    ≡ some (claim_row 40 worker (new_row 20 "t-1" (request "a")))
unfolding claim_next_task tea_tax_product.Prelude.filter
    tea_tax_product.TaskQueue.Operations.is_claimable new_row
    tea_tax_product.TaskQueue.Types.TaskQueueStatus-discrete includes claim_row
second_claim = refl

claim_next_task-once_example :
    ((claim_row 40 worker (new_row 20 "t-1" (request "a"))).id
      === (claim_row 30 worker (new_row 10 "t-2" (request "b"))).id)
    ≡ false
claim_next_task-once_example =
    claim_next_task-once 30 40 [] [] worker worker rows
      (claim_row 30 worker (new_row 10 "t-2" (request "b")))
      (claim_row 40 worker (new_row 20 "t-1" (request "a"))) rows-Distinct first_claim second_claim

enqueue_task-again_example :
    enqueue_task 50 "t-4"
      (record (request "c") { job_type = "other" })
      (enqueue_task 40 "t-3" (request "c") rows).0
    ≡ enqueue_task 40 "t-3" (request "c") rows
enqueue_task-again_example =
    enqueue_task-again 40 50 "t-3" "t-4" (request "c") (record (request "c") { job_type = "other" })
      rows refl

recover_stale_claims-again_example :
    recover_stale_claims 2000000
      (recover_stale_claims 2000000 (claim_next_task 30 [] worker rows).0).0
    ≡ ((recover_stale_claims 2000000 (claim_next_task 30 [] worker rows).0).0, [])
recover_stale_claims-again_example =
    recover_stale_claims-again 2000000 (claim_next_task 30 [] worker rows).0

-- A task is enqueued, claimed and recovered.
abbrev recovered_rows : List TaskQueueRow
recovered_rows =
    (recover_stale_claims 2000000
      (claim_next_task 30 [] worker (enqueue_task 10 "t-1" (request "a") []).0).0).0

recovered_rows-Reachable : Reachable recovered_rows
unfolding includes
recovered_rows-Reachable =
    step
      (step (step start (enqueue 10 "t-1" (request "a") refl (omega arith))) (claim 30 [] worker))
      (recover 2000000)

Reachable-WellFormed_example : WellFormed recovered_rows
Reachable-WellFormed_example = Reachable-WellFormed recovered_rows-Reachable

-- A nested object is accepted, whatever its keys.
nested_payload :
    validate_task_payload (obj (field "ref" (obj (field "email" (str "a@b.c") end)) end)) ≡ none
unfolding validate_task_payload tea_tax_product.Prelude.any tea_tax_product.Js.lower_is
    tea_tax_product.Js.same_codes tea_tax_product.Js.lower
nested_payload = refl

denied_payload :
    validate_task_payload (obj (field "ref" (str "x") (field "EMail" (str "a@b.c") end)))
    ≡ some "payload key \"EMail\" is not allowed — use a resource ID reference instead"
unfolding validate_task_payload tea_tax_product.Prelude.any tea_tax_product.Js.lower_is
    tea_tax_product.Js.same_codes tea_tax_product.Js.lower
    tea_tax_product.TaskPayload.denied_message
denied_payload = refl

validate_task_payload-accepts_example :
    (validate_task_payload (obj (field "ref" (str "x") end)) ≡ none)
    ↔ (denied_keys (obj (field "ref" (str "x") end)) ≡ false)
validate_task_payload-accepts_example =
    validate_task_payload-accepts (obj (field "ref" (str "x") end))
