-- ===== src/QueueApi/Effects.antt =====
-- What a request of a user may do to the queue: one operation in the user's name, or nothing.
use mathlib.Core.Path.{subst}
use tea_tax_product.Prelude.{
  ℕ, ◌≡◌, refl, sym, String, Bool, true, false, Option, none, some, List, [], ◌∷◌, filter, arith,
  Bool-cases, Option-cases, inl, inr,
}
use tea_tax_product.Prelude.Enum.{◌===◌, string_eq}
use tea_tax_product.Js.{Value, null, bool, num, str, arr, obj, property}
use tea_tax_product.TaskQueue.Types.{
  TaskQueueRow, EnqueueOptions, ClaimOptions, UpdateStatusOptions, SubmitResultOptions,
}
use tea_tax_product.TaskQueue.Operations.{
  update_rows, returning, first, enqueue_task, claim_next_task, update_task_status,
  submit_task_result,
}
use tea_tax_product.TaskPayload.{validate_task_payload}
use tea_tax_product.QueueApi.{
  QueueServer, QueueRequest, QueueDb, QueueReply, error, row, thrown, returned,
}
use tea_tax_product.QueueApi.Session.{
  parsed, required_text, converted, string_of, number_of, part, status_of, safe_payload,
  enqueue_options, enqueue_request, claim_request, status_request, result_request, result_value,
}

-- An UPDATE that returns no row changes none.
returning-none :
    (matches : TaskQueueRow → Bool) (set : TaskQueueRow → TaskQueueRow) (ts : List TaskQueueRow)
    → first (returning matches set ts) ≡ none
    → update_rows matches set ts ≡ ts
unfolding returning update_rows filter
returning-none matches set [] h = refl
returning-none matches set (t ∷ ts) h = ground (arith, returning-none matches set ts)

-- What the request `req` of the user `user` may do to the table, with the row that it replies with. The operation takes its
-- identifier from the path and its fields from the body.
pub data Allowed (server : QueueServer) (user : String) (req : QueueRequest)
    (ts : List TaskQueueRow) : List TaskQueueRow → TaskQueueRow → Type 0 where
  enqueues :
      (body : Value) (o : EnqueueOptions)
      → req.body ≡ some body
      → o.created_by ≡ user
      → string_of (property body "idempotency_key") ≡ some o.idempotency_key
      → string_of (property body "agent_type") ≡ some o.agent_type
      → string_of (property body "job_type") ≡ some o.job_type
      → o.payload ≡ some (safe_payload (property body "payload"))
      → validate_task_payload (safe_payload (property body "payload")) ≡ none
      → Allowed server user req ts
          (enqueue_task server.now server.new_id o ts).0
          (enqueue_task server.now server.new_id o ts).1
  claims :
      (body : Value) (o : ClaimOptions) (t : TaskQueueRow)
      → req.body ≡ some body
      → o.claimed_by ≡ user
      → string_of (property body "agent_type") ≡ some o.agent_type
      → (claim_next_task server.now server.locked o ts).1 ≡ some t
      → Allowed server user req ts (claim_next_task server.now server.locked o ts).0 t
  updates :
      (body : Value) (o : UpdateStatusOptions) (t : TaskQueueRow)
      → req.body ≡ some body
      → o.id ≡ part req.path 3
      → status_of (property body "status") ≡ some o.status
      → (update_task_status server.now o ts).1 ≡ some t
      → Allowed server user req ts (update_task_status server.now o ts).0 t
  submits :
      (body : Value) (o : SubmitResultOptions) (t : TaskQueueRow)
      → req.body ≡ some body
      → o.id ≡ part req.path 3
      → property body "result" ≡ some o.result
      → (submit_task_result server.now o ts).1 ≡ some t
      → Allowed server user req ts (submit_task_result server.now o ts).0 t

-- The reply is a task.
abbrev pub is_task : QueueReply → Bool
is_task (row t) = true
is_task _ = false

-- A reply that is no task comes with unchanged tables; one that is a task comes with what an allowed operation did.
pub data Sound (server : QueueServer) (user : String) (req : QueueRequest) (db : QueueDb)
    : QueueReply × QueueDb → Type 0 where
  quiet : (q : QueueReply) → is_task q ≡ false → Sound server user req db (q, db)
  wrote :
      (ts : List TaskQueueRow) (t : TaskQueueRow)
      → Allowed server user req db.tasks ts t
      → Sound server user req db (row t, record { tasks = ts; revoked = db.revoked })

module _ (server : QueueServer) (user : String) (req : QueueRequest) (db : QueueDb) where
  abbrev S : QueueReply × QueueDb → Type 0
  S = Sound server user req db

  returned-Sound :
      (status : ℕ) (message : String) (r : List TaskQueueRow × Option TaskQueueRow)
      → (r.1 ≡ none → r.0 ≡ db.tasks)
      → ((t : TaskQueueRow) → r.1 ≡ some t → Allowed server user req db.tasks r.0 t)
      → S (returned status message db r)
  unfolding returned
  returned-Sound status message (ts, none) same allowed =
      subst (λ xs. S (error status message, record { tasks = xs; revoked = db.revoked }))
        (sym (same refl)) (quiet (error status message) refl)
  returned-Sound status message (ts, some t) same allowed = wrote ts t (allowed t refl)

  required_text-Sound :
      (body : Value) (key message : String) (next : String → QueueReply × QueueDb)
      → ((s : String) → string_of (property body key) ≡ some s → S (next s))
      → S (required_text body key message db next)
  unfolding required_text
  required_text-Sound body key message next h =
      elim (Option-cases (string_of (property body key))) [
        | inl e ↦ rw (e, required_text) (quiet (error 400 message) refl)
        | inr (s, e) ↦ elim (Bool-cases (s === "")) [
          | inl b ↦ rw (e, required_text) rw b (quiet (error 400 message) refl)
          | inr b ↦ rw (e, required_text) rw b (h s e)
        ]
      ]

  parsed-Sound :
      (body : Option Value) (next : Value → QueueReply × QueueDb)
      → ((v : Value) → body ≡ some v → S (next v))
      → S (parsed body db next)
  unfolding parsed
  parsed-Sound none next h = quiet (error 400 "Invalid JSON body") refl
  parsed-Sound (some null) next h = quiet thrown refl
  parsed-Sound (some (bool b)) next h = h (bool b) refl
  parsed-Sound (some (num n)) next h = h (num n) refl
  parsed-Sound (some (str s)) next h = h (str s) refl
  parsed-Sound (some (arr vs)) next h = h (arr vs) refl
  parsed-Sound (some (obj fs)) next h = h (obj fs) refl

  converted-Sound {ℓ} :
      {A B : Type ℓ} (convert : A → Option B) (o : Option A)
      (next : Option B → QueueReply × QueueDb)
      → ((b : Option B) → S (next b))
      → S (converted convert o db next)
  unfolding converted
  converted-Sound convert none next h = h none
  converted-Sound convert (some a) next h = elim (Option-cases (convert a)) [
    | inl e ↦ rw (e, converted) (quiet thrown refl)
    | inr (b, e) ↦ rw (e, converted) (h (some b))
  ]

  -- A statement that updates the rows that match.
  update-Sound :
      (status : ℕ) (message : String) (matches : TaskQueueRow → Bool)
      (set : TaskQueueRow → TaskQueueRow)
      → ((t : TaskQueueRow)
          → first (returning matches set db.tasks) ≡ some t
          → Allowed server user req db.tasks (update_rows matches set db.tasks) t)
      → S (
          returned status message db
            (update_rows matches set db.tasks, first (returning matches set db.tasks)))
  update-Sound status message matches set =
      returned-Sound status message
        (update_rows matches set db.tasks, first (returning matches set db.tasks))
        (returning-none matches set db.tasks)

  pub claim_request-Sound : S (claim_request server user req.body db)
  unfolding claim_request claim_next_task
  claim_request-Sound = parsed-Sound req.body _ (λ v b.
      required_text-Sound v "agent_type" "agent_type is required" _
        (λ agent_type a. update-Sound 204 "No task available" _ _ (λ t e. claims v _ t b refl a e)))

  pub status_request-Sound : S (status_request server (part req.path 3) req.body db)
  unfolding status_request update_task_status
  status_request-Sound = parsed-Sound req.body _ (λ v b.
      elim (Option-cases (status_of (property v "status"))) [
        | inl e ↦ rw e (quiet _ refl)
        | inr (status, s) ↦ rw s (
            converted-Sound server.date_of (string_of (property v "next_retry_at")) _
              (λ at. update-Sound 404 "Not found" _ _ (λ t e. updates v _ t b refl s e)))
      ])

  result_value-Sound :
      (v : Value) (r : Option Value)
      → req.body ≡ some v
      → property v "result" ≡ r
      → S (result_value server (part req.path 3) db r)
  unfolding result_value submit_task_result
  result_value-Sound v none b e = quiet _ refl
  result_value-Sound v (some null) b e = quiet _ refl
  result_value-Sound v (some (bool x)) b e = quiet _ refl
  result_value-Sound v (some (num n)) b e = quiet _ refl
  result_value-Sound v (some (str s)) b e = quiet _ refl
  result_value-Sound v (some (arr vs)) b e = quiet _ refl
  result_value-Sound v (some (obj fs)) b e =
      update-Sound 404 "Not found" _ _ (λ t r. submits v _ t b refl e r)

  pub result_request-Sound : S (result_request server (part req.path 3) req.body db)
  unfolding result_request
  result_request-Sound =
      parsed-Sound req.body _ (λ v b. result_value-Sound v (property v "result") b refl)

  pub enqueue_request-Sound : S (enqueue_request server user req.body db)
  unfolding enqueue_request enqueue_options
  enqueue_request-Sound = parsed-Sound req.body _ (λ v b.
      required_text-Sound v "idempotency_key" "idempotency_key is required" _ (λ key k.
        required_text-Sound v "agent_type" "agent_type is required" _ (λ agent_type a.
          required_text-Sound v "job_type" "job_type is required" _ (λ job_type j.
            elim (Option-cases (validate_task_payload (safe_payload (property v "payload")))) [
              | inl e ↦ rw e (
                  converted-Sound server.integer_of (number_of (property v "priority")) _
                    (λ priority.
                      converted-Sound server.integer_of (number_of (property v "max_attempts")) _
                        (λ attempts. wrote _ _ (
                          enqueues v
                            (enqueue_options user key agent_type job_type priority attempts v) b
                            refl k a j refl e))))
              | inr (message, e) ↦ rw e (quiet (error 400 message) refl)
            ]))))
