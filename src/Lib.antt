-- ===== src/Lib.antt =====
-- A formal model of the tax knowledge base, with proofs.
--
-- The program keeps a user's tax situation as one object (packages/core/tax-situation.ts) and answers
-- three questions about it without any model or service: which tier of each tax software would take it
-- (packages/core/knowledge-base/tier-mapping.ts), which forms it requires (form-taxonomy.ts), and whether
-- it is consistent and complete (validation-engine.ts, which runs the rules of validation-rules.ts, reads
-- thresholds.ts, and calls the form traversal). The server and the web application call these three.
-- Work for external agents goes through a queue in the database (packages/db/task-queue.ts): the server
-- enqueues tasks, workers claim and finish them, and a timer recovers the claims that expired. The server
-- limits the requests of a client by a sliding window (apps/server/src/security/rate-limiter.ts). Its routes
-- under /api/tax-objects (apps/server/src/api/tax-objects.ts, tax-returns.ts, tier-evaluate.ts, parse-description.ts) store the tax
-- objects of a user and their returns, and check each body against a JSON Schema of
-- packages/core/tax-situation-schema.ts; a return's situation is what the engines above are run on.
--
-- Rows of the audit log are chained by hashes (packages/core/audit.ts), and requests of data subjects erase or
-- export what the tables hold about them (packages/db/governance.ts), with an event for the log.
--
-- Files, each with its children:
--   Prelude       equality tests as instances, Boolean tests on lists, signed integers and numbers
--   Js            JavaScript values as the untyped parts of the program see them
--   TaxSituation  tax-situation.ts: records, unions, and the view of a situation as a JavaScript value
--   Schema        tax-situation-schema.ts: enum arrays and schemas as data, and what each keyword requires
--   Api           the routes under /api/tax-objects, the CSRF check of apps/server/src/auth/csrf.ts, and the
--                 validator cache of apps/server/src/api/validation.ts, over the tables of schema.sql
--   Tier          tier-mapping.ts: conditions, the five providers, evaluateTierPlacement
--   Thresholds    thresholds.ts
--   Rules         validation-rules.ts, a file for each category of rules
--   Taxonomy      form-taxonomy.ts: forms, trigger rules (resolveField, evaluateRule), getRequiredForms
--   Validation    validation-engine.ts: completeness, confidence warnings, validate
--   TaskQueue     task-queue.ts: the statements on the table of tasks, as steps of a state machine
--   TaskPayload   apps/server/src/api/task-payload-validation.ts: the check of a task's payload
--   DelegatedToken  apps/server/src/auth/delegated-token.ts: the single-use tokens of workers
--   QueueApi      apps/server/src/api/task-queue.ts: the routes of the queue, for workers with a token and for users
--   RateLimiter   rate-limiter.ts: one limiter over explicit time
--   Audit         packages/core/audit.ts, apps/server/src/policies/audit-service.ts and the loop of
--                 apps/server/src/api/audit.ts: the hash of a row, appending a row, verifying the chain
--   Governance    governance.ts: retention, replacing personal data, erasure and export, over the tables of Api
--   Tests         sample situations, and the theorems applied to them
--
-- Names are the source's in snake_case: hasOnlyW2Income is has_only_w2_income, the check of the rule
-- MISSING_SCHEDULE_C is check_missing_schedule_c. A union of string literals is a data type; where the
-- source looks a field up by a computed path (resolveField, computeCompleteness) the situation is first
-- turned into a JavaScript value by tax_situation_fields.
--
-- Numbers. A JavaScript number is an integer multiple of 2^-16, `pos n` or `negsuc n` in these units. For
-- amounts of that form below 2^37 the sums and comparisons of the source are exact, so they are those of
-- integers; amounts in cents that are not such multiples, NaN and the infinities are outside the model.
-- The score 0.4 lies between two multiples, which decides each comparison with it. Prices are in cents,
-- the completeness score in ten-thousandths, to which the source rounds it.
--
-- Fuel. The loop of getRequiredForms runs on one unit for each queued id and each dependency of the
-- taxonomy, and one more; every id is queued at most once, so it is enough for any taxonomy.
--
-- Parameters. `Jwt` holds what verifyJwt (apps/server/src/auth/jwt.ts) reads at a call: whether a token is well formed and
-- its ES256 signature good under the active keys, the claims that it encodes, and the clock; its checks of the claims,
-- with isRevoked of packages/db/revocation.ts, are modelled. The clean-up of expired rows is not.
--
-- `birth_year` is new Date(s).getFullYear(), `none` for an invalid date: the engine's date parser, on which one rule (a dependent over 24) depends. Array.prototype.sort compares by bytes, which
-- is the order of code units for the ASCII ids of forms. toLowerCase lowers the ASCII letters and the
-- Kelvin sign, which decides equality with the ASCII words that the source compares with.
--
-- The validator of the package ajv is a field of `Surroundings`; `conforms` says what draft-07 of JSON Schema
-- requires for the keywords in use, and a theorem that needs it assumes that the validator answers so
-- (`Standard`). A schema object is a number in the validator cache, since the cache goes by identity.
-- getAuthenticatedUser is the field `user` of a request, crypto.randomUUID(), NOW() and the text of a number are
-- fields of `Surroundings`, as is the call of the claude CLI with what is made of its output. The result of an engine on a stored situation is named by the situation.
--
-- The audit log. `Platform` holds SHA-256 and the runtime's texts of strings, numbers and times. The rows are a list,
-- the last one first; the identifier of a new row is an argument, as the database draws it, and a transaction is one
-- step. What a hash does not cover (ip, user agent) is left out.
--
-- Data governance. `Pseudonyms` holds the HMAC and String(value). The audit writer is a function of the event, false when
-- it throws. A retention period is a whole number of days.
--
-- The routes of the queue. `QueueServer` holds a `Jwt`, NOW(), the id of a new row, the locked rows, new Date of a text,
-- and what the database makes of a JavaScript number in an INTEGER column, `none` where it refuses the value.
--
-- The routes. A path is the list of its parts between slashes. A handler answers with a reply and at most one
-- write, which `commit` carries out: an entity and its relation, or an update of one row. The foreign keys may refuse the relation, and then the
-- entity stays without it, since the two statements are no transaction. Of the values under a key, `->>` compares the texts, which the
-- handlers put there.
--
-- The queue. A statement of task-queue.ts runs in one transaction, so each is one step on the list of rows;
-- a row that another transaction has locked at that moment is in the argument `locked` of a claim, for
-- SKIP LOCKED. NOW() is an argument, in microseconds, and so is the id of a new row. Of rows that tie in
-- ORDER BY the first of the list is taken. The rate limiter gets Date.now() as an argument, in
-- milliseconds.
--
-- Not modelled: the other HTTP routes, the rest of the database layer, authentication, the worker, the web application and the
-- scripts, which move data and call the functions above.
pub mod Prelude
pub mod Js
pub mod TaxSituation
pub mod Schema
pub mod Api
pub mod Tier
pub mod Thresholds
pub mod Rules
pub mod Taxonomy
pub mod Validation
pub mod TaskQueue
pub mod TaskPayload
pub mod DelegatedToken
pub mod RateLimiter
pub mod QueueApi
pub mod Audit
pub mod Governance
pub mod Tests
