-- ===== src/Store/ApplyOp/Keeps.antt =====
-- src/store/repo.rs: the writes that `apply_op` makes, as the laws of a property of transactions, and the
-- batches that keep such a property.
use sin.Prelude.{ℕ, suc, String, ◌≡◌, refl, true, not, Option, some, List, [], ◌∷◌}
use sin.Core.Types.{
  TaskId, WeekId, DirectionId, ReviewId, RhythmId, TaskStatus, TaskKind, Energy, Alloc, Rhythm,
  Review,
}
use sin.Core.Transitions.{task_transition_allowed}
use sin.Core.Proposal.Errors.{NewTask}
use sin.Store.Errors.{Event, StoreError, Ends, returns, Ends-bind, Ends-fail_if, Ends-map}
use sin.Store.Rows.{column, update}
use sin.Store.Tables.{TaskRow, Tables, ClassifyEval, Env, Tx, task_key, find_task, find_review}
use sin.Store.Tables.Statements.{event_id, log_event, drew, wrote, set_status}
use sin.Store.ApplyOp.Create.{
  apply_create_area, apply_create_task, apply_create_direction, apply_create_tasks, new_area,
  new_direction, backlog_task, planned_task,
}
use sin.Store.ApplyOp.Change.{
  apply_reorder, apply_draft, reorder_loop, carried_task, in_week, in_inbox, drafted, set_sort_key,
  adjust, set_direction, set_body, with_tasks,
}
use sin.Store.ApplyOp.Effects.{
  logged, log_event-Ends, insert_area-Ends, insert_direction-Ends, insert_task-Ends, IsInserted,
  with_area, with_direction, with_task,
}

-- what an `UPDATE` of tasks leaves of a transaction
abbrev pub updated : TaskId → (TaskRow → TaskRow) → Tx → Tx
updated id set tx = wrote (with_tasks (update task_key id set tx.tables.tasks) tx.tables) tx

abbrev pub with_rhythms : List Rhythm → Tables → Tables
with_rhythms rhythms db = record db { rhythms = rhythms }

abbrev pub with_reviews : List Review → Tables → Tables
with_reviews reviews db = record db { reviews = reviews }

abbrev pub with_evals : List ClassifyEval → Tables → Tables
with_evals evals db = record db { classify_evals = evals }

abbrev pub status_of : TaskRow → TaskStatus
status_of row = row.task.status

pub record Keeps (env : Env) (source : String) (K : Tx → Type 0) : Type 0 where
  pub clock : (tx : Tx) → K tx → K (record tx { calls = suc tx.calls })
  pub event :
      (columns : String → Event) (tx : Tx)
      → ((id : String) → event_id (columns id) ≡ id)
      → K tx
      → K (logged env columns tx)
  pub area :
      (title slug now : String) (tx : Tx)
      → K tx
      → K (drew (with_area (new_area (env.ulid tx.calls) title slug now) tx.tables) tx)
  pub direction :
      (title window now : String) (tx : Tx)
      → K tx
      → K (drew (with_direction (new_direction (env.ulid tx.calls) title window now) tx.tables) tx)
  pub backlog :
      (d : Option DirectionId) (parent : Option TaskId) (title : String) (kind : TaskKind)
      (energy : Energy) (est : Option ℕ) (now : String) (tx : Tx)
      → K tx
      → K (
          drew
            (with_task
              (backlog_task (env.ulid tx.calls) d parent title kind energy est now)
              tx.tables)
            tx)
  pub planned :
      (week : WeekId) (place : ℕ) (t : NewTask) (now : String) (tx : Tx)
      → K tx
      → K (drew (with_task (planned_task (env.ulid tx.calls) week place t now) tx.tables) tx)
  pub status :
      (id : TaskId) (from to : TaskStatus) (now : String) (tx : Tx)
      → K tx
      → column status_of (find_task id tx.tables) ≡ some from
      → task_transition_allowed from to ≡ true
      → K (updated id (set_status to now) tx)
  pub place :
      (id : TaskId) (n : ℕ) (now : String) (tx : Tx) → K tx → K (updated id (set_sort_key n now) tx)
  pub rhythm :
      (id : RhythmId) (alloc : List Alloc) (now : String) (tx : Tx)
      → K tx
      → K (
          wrote
            (with_rhythms (update Rhythm.id id (adjust alloc now) tx.tables.rhythms) tx.tables)
            tx)
  -- the row was read before the task was closed
  pub carried :
      (id : TaskId) (week : WeekId) (now : String) (row : TaskRow) (evals : List ClassifyEval)
      (before tx : Tx)
      → K before
      → find_task id before.tables ≡ some row
      → K tx
      → column status_of (find_task id tx.tables) ≡ some TaskStatus.carried_over
      → IsInserted
          (carried_task (env.ulid tx.calls) week now row)
          tx.tables
          (with_task (carried_task (env.ulid tx.calls) week now row) tx.tables)
      → K (
          drew
            (with_evals evals (with_task (carried_task (env.ulid tx.calls) week now row) tx.tables))
            tx)
  pub assign :
      (id : TaskId) (d : DirectionId) (now : String) (tx : Tx)
      → K tx
      → in_inbox (find_task id tx.tables) ≡ true
      → K (updated id (set_direction source d now) tx)
  pub body :
      (id : ReviewId) (text now : String) (tx : Tx)
      → K tx
      → K (
          wrote
            (with_reviews (update Review.id id (set_body text now) tx.tables.reviews) tx.tables)
            tx)

abbrev pub Any : StoreError → Type 0
Any e = Unit

module _ {env : Env} {source : String} {K : Tx → Type 0} (k : Keeps env source K)
    (now : String) where
  pub logs :
      (columns : String → Event) (tx : Tx)
      → ((id : String) → event_id (columns id) ≡ id)
      → K tx
      → Ends K Any (log_event env columns tx)
  logs columns tx named h =
      Ends-map (λ next e. rw e (k.event columns tx named h)) (λ e q. tt)
        (log_event-Ends env columns tx)

  pub create_area_keeps :
      (title : String) (tx : Tx) → K tx → Ends K Any (apply_create_area env now title tx)
  unfolding apply_create_area
  create_area_keeps title tx h =
      Ends-bind
        (Ends-map (λ db e. e) (λ e q. tt) (insert_area-Ends (new_area _ title _ now) tx.tables))
        λ db e. rw e (logs _ _ (λ i. refl) (k.area title _ now tx h))

  pub create_direction_keeps :
      (title window : String) (tx : Tx)
      → K tx
      → Ends K Any (apply_create_direction env now title window tx)
  unfolding apply_create_direction
  create_direction_keeps title window tx h =
      Ends-bind
        (Ends-map (λ db e. e) (λ e q. tt)
          (insert_direction-Ends (new_direction _ title window now) tx.tables))
        λ db e. rw e (logs _ _ (λ i. refl) (k.direction title window now tx h))

  pub create_task_keeps :
      (title : String) (d : Option DirectionId) (parent : Option TaskId) (kind : TaskKind)
      (energy : Energy) (est : Option ℕ) (tx : Tx)
      → K tx
      → Ends K Any (apply_create_task env now title d parent kind energy est tx)
  unfolding apply_create_task
  create_task_keeps title d parent kind energy est tx h =
      Ends-bind
        (Ends-map (λ db i. i) (λ e q. tt)
          (insert_task-Ends (backlog_task _ d parent title kind energy est now) tx.tables))
        λ db i.
          rw i.tables (logs _ _ (λ i. refl) (k.backlog d parent title kind energy est now tx h))

  pub create_tasks_keeps :
      (week : WeekId) (n : ℕ) (tasks : List NewTask) (tx : Tx)
      → K tx
      → Ends K Any (apply_create_tasks env now week n tasks tx)
  unfolding apply_create_tasks
  create_tasks_keeps week n [] tx h = returns tx h
  create_tasks_keeps week n (t ∷ tasks) tx h =
      Ends-bind
        (Ends-map (λ db i. i) (λ e q. tt)
          (insert_task-Ends (planned_task _ week n t now) tx.tables))
        λ db i. rw i.tables (
          Ends-bind (logs _ _ (λ i. refl) (k.planned week n t now tx h))
            λ next b. create_tasks_keeps week (suc n) tasks next b)

  pub reorder_loop_keeps :
      (week : WeekId) (n : ℕ) (order : List TaskId) (tx : Tx) (db : Tables)
      → K (wrote db tx)
      → Ends (λ next. K (wrote next tx)) Any (reorder_loop env now week n order db)
  unfolding reorder_loop
  reorder_loop_keeps week n [] tx db h = returns db h
  reorder_loop_keeps week n (id ∷ order) tx db h =
      Ends-fail_if (not (in_week week (find_task id db))) _ _ (λ q. tt)
        λ q. reorder_loop_keeps week (suc n) order tx _ (k.place id n now (wrote db tx) h)

  pub reorder_keeps :
      (week : WeekId) (order : List TaskId) (tx : Tx)
      → K tx
      → Ends K Any (apply_reorder env now week order tx)
  unfolding apply_reorder
  reorder_keeps week order tx h =
      Ends-bind (reorder_loop_keeps week 0 order tx tx.tables h) λ db b. logs _ _ (λ i. refl) b

  pub draft_keeps :
      (id : ReviewId) (text : String) (tx : Tx) → K tx → Ends K Any (apply_draft env now id text tx)
  unfolding apply_draft
  draft_keeps id text tx h =
      Ends-fail_if (not (drafted (find_review id tx.tables))) _ _ (λ q. tt)
        λ q. logs _ _ (λ i. refl) (k.body id text now tx h)
