-- ===== src/TaskQueue.antt =====
-- packages/db/task-queue.ts: the queue of tasks, a table of the database. Each exported function runs one
-- SQL statement, which is one step on the list of rows.
pub mod Types
pub mod Operations
pub mod Table
pub mod Selection
pub mod Claims
pub mod Enqueue
pub mod Recovery
pub mod Winner
pub mod Attempts
pub mod StateMachine
pub mod Listing
