-- ===== src/Lib.antt =====
-- Sin90: the domain rules, the proposal validator, the store of proposals with their application, the
-- outbox with the routines that feed it, and the reconciler that drains it to the Agent24 kernel.
--
-- Parts of the program and their models, with paths from the root of the repository:
--
--   src/core/types.rs, src/core/transitions.rs    Core/Types, Core/Transitions. Each `matches!` table is
--     a function by clauses; Core/Transitions/Graph has the runs that the tables allow.
--   src/core/proposal.rs    Core/Proposal. `Errors` has the ops and the errors, `Working` the overlay
--     that a batch writes to, `Validate` the arms of `validate_op` (a long arm is a function of its own),
--     `Alloc` the check of allocations. `Batch`, `Runs`, `Placement` and `Overlay` have what follows from
--     acceptance, and `Asked` what the validator asks its context. The digest of a body and the source of
--     a proposal are parameters.
--   src/core/util.rs    Core/Cron: `validate_cron`. The parser of the crate cron is a parameter.
--     Cron/Fields and Cron/Exact are about the fields of an expression and those that pass.
--   src/store/mod.rs    Store/Errors: `StoreError`, with the failing constraints of SQLite as values, and
--     the two ways in which an operation ends.
--   src/store/migrations, src/store/repo.rs    Store/Rows and Store/Tables: a table is the list of its
--     rows in rowid order. A statement fails where a key, a reference or a `CHECK` of its table does.
--     What `ulid()` and `now_iso8601()` return are two functions of how often they were called, `Env`.
--   src/store/repo.rs, proposals    Store/Proposals: `submit_proposal`, `apply_proposal`,
--     `reject_proposal`; Store/Proposals/Snapshot: `build_snapshot`. Store/ApplyOp has `apply_op`, with
--     an arm as a function in Create or Change. Agrees, Views, Refusals, Arms and Refines put the arms
--     beside the validator's view; Keeps and Kept have the laws of a property that every write keeps.
--     Loads and Loaded are about the snapshot, Applied, Once and Pending about an application, Stamps,
--     Steps and Final about sequences of operations. Store/Slug: `slugify` and `allocate_area_slug`.
--   src/store/repo.rs, the direct writes of areas, directions, rhythms, weeks, blocks and tasks
--     Store/Direct: `create_area`, `create_task` and the others, over the same record of tables.
--     Logged has what each does, Writes the steps of direct writes and of operations on proposals;
--     Attention has `week_attention`, Credits what the transitions of blocks do to it.
--   src/store/attention.rs    Store/Daily: the daily view with `attention_apply_new_events` and
--     `attention_rebuild`; Daily/Rows and Daily/Rebuild relate the two. The log is a list of events with
--     rising numbers, and a column that does not decode gives no result.
--   src/store/repo.rs, the table sin90_outbox    Store/Outbox. A table is the list of its rows in rowid
--     order; each SQL statement is a function on it. Store/Outbox/Live, Formed and Due are about lookups,
--     well-formed tables and the selection of due rows.
--   src/store/repo.rs, the routines    Store/Routines, Store/Routines/Ops and Moves: `create_routine`,
--     `update_routine`, `transition_routine`, `outbox_enqueue_upsert_for_routine`,
--     `outbox_enqueue_delete_for_orphan`, `sync_kernel_suspended_routines`. A transaction is a function
--     from a database to a result with the next database, and an error leaves the database as it was. What
--     `ulid()` and `now_iso8601()` return is an argument, `Draws`; an id that is drawn is new. Keys,
--     Mirror, Rows, Steps, Invariant, Preserve, Patch and Current lead to what holds in every state.
--   src/adapter_agent24/reconciler.rs    Adapter/Apply: `backoff_after`, the two `match`es of
--     `apply_one` as `dispatch` and `settle`, `drain_pending_before`. The replies of the kernel, the SDK's
--     methods on errors and the clock are parameters. Adapter/Delivery has the pump and the writers as
--     steps that interleave freely: a reply may come at any later time. Adapter/Reconcile has
--     `reconcile_full`, Reconcile/Maps and Pass what a pass reads and asks for; the case map of cron texts
--     and the kernel's list are parameters.
--
-- The parts meet at the outbox: an operation on a routine collapses its intent onto the live row of its
-- key, under a raised version, in its own transaction; the pump reads due rows, sends those that are still
-- at the version it has read, and writes outcomes back only at that version.
--
-- Numbers: counters and versions are numbers without bound (64-bit columns of SQLite); the cast to 32 bits
-- in `backoff_after` is written out, and the counter of slugs is a number, as it stays below the number
-- of areas and three. The sums of minutes have no bound either. The loop of `allocate_area_slug` has as
-- many rounds as there are areas, and one more: one of as many candidates is free. Every other loop is
-- structural.
--
-- Not modelled: SQL execution and its I/O errors, the wire protocol and the HTTP layer, the calls of
-- models, reports but for the weekly and the daily attention, start-up. Of the store, `create_week`, the
-- direct writes of reviews, the listings and the fires of routines are not modelled; of the reconciler,
-- the timing of the pump. A column that holds a serialised value holds the value; minutes in the payload
-- of an event are a number, as they are written. The routines have a database of their own, since no
-- operation of theirs reads what proposals write but the ids of areas and directions.
--
-- Examples holds tests and the instances of the results at concrete inputs.
pub mod Prelude
pub mod Core
pub mod Store
pub mod Adapter
mod Examples
