-- ===== src/Store/ApplyOp/Change.antt =====
-- src/store/repo.rs: the arms of `apply_op` that change rows, and `require_directions_exist`.
use sin.Prelude.{
  ℕ, suc, String, Bool, true, false, not, Option, none, some, List, [], ◌∷◌, ◌++◌, ◌==◌,
}
use sin.Core.Types.{
  DirectionId, TaskId, WeekId, RhythmId, ReviewId, Direction, Task, Rhythm, Review, Alloc,
  TaskStatus, RhythmStatus, triage_direction_id,
}
use sin.Core.Transitions.{check_task_transition, check_rhythm_transition}
use sin.Core.Proposal.Validate.{is_draft}
use sin.Store.Json.{Items, str, num, arr, obj, field, end, cons, nil, opt_str, strings}
use sin.Store.Errors.{
  Event, not_found, conflict, same_week_carry, foreign_key_failed, check_failed, StoreResult, ok,
  ◌>>=◌, ◌>>◌, fail_if, found, transition_checked,
}
use sin.Store.Rows.{is_some, select, update}
use sin.Store.Tables.{
  TaskRow, Tables, Env, Tx, ClassifyEval, task_key, find_task, find_direction, find_review,
  triage_via_allowed,
}
use sin.Store.Tables.Statements.{
  same_text, insert_task, event, log_event, drew, wrote, stamp, read_task_status,
  read_rhythm_status, require_task_week_open, set_status, task_status_wire, rhythm_status_wire,
}

abbrev touched : String → Task → Task
touched now task = record task { updated_at = now }

abbrev pub set_sort_key : ℕ → String → TaskRow → TaskRow
set_sort_key place now row = record row { sort_key = place; task = touched now row.task }

abbrev pub in_week : WeekId → Option TaskRow → Bool
in_week week_id none = false
in_week week_id (some row) = same_text row.task.week_id week_id

unfoldable pub require_directions_exist : List Alloc → Tables → StoreResult (Unit {0})
require_directions_exist [] db = ok tt
require_directions_exist (a ∷ alloc) db =
    fail_if (not (is_some (find_direction a.direction_id db)))
      (not_found "direction" a.direction_id)
    >> require_directions_exist alloc db

abbrev pub adjust : List Alloc → String → Rhythm → Rhythm
adjust new_alloc now r = record r {
  status = RhythmStatus.adjusted;
  allocations = new_alloc;
  updated_at = now;
}

abbrev pub alloc_items : List Alloc → Items
alloc_items [] = nil
alloc_items (a ∷ l) =
    cons (obj (field "direction_id" (str a.direction_id) (field "pct" (num a.pct) end)))
      (alloc_items l)

abbrev carried_copy : (new_id : TaskId) → WeekId → (now : String) → Task → Task
carried_copy new_id to_week now task = record task {
  id = new_id;
  week_id = some to_week;
  status = TaskStatus.planned;
  carried_from = some task.id;
  created_at = now;
  updated_at = now;
}

-- the task in the next week
abbrev pub carried_task : (new_id : TaskId) → WeekId → (now : String) → TaskRow → TaskRow
carried_task new_id to_week now row = record row {
  task = carried_copy new_id to_week now row.task;
  sort_key = 0;
}

abbrev moved : DirectionId → String → Task → Task
moved direction_id now task = record task { direction_id = some direction_id; updated_at = now }

-- `triage_via` and `triage_entered_at` go with the target
abbrev pub set_direction : (capability_source : String) → DirectionId → String → TaskRow → TaskRow
set_direction source direction_id now row = record row {
  task = moved direction_id now row.task;
  triage_via = stamp (direction_id == triage_direction_id) source;
  triage_entered_at = stamp (direction_id == triage_direction_id) now;
}

abbrev inbox_direction : Option DirectionId → Bool
inbox_direction none = true
inbox_direction (some d) = d == triage_direction_id

-- `direction_id IS NULL OR direction_id = ?`
abbrev pub in_inbox : Option TaskRow → Bool
in_inbox none = false
in_inbox (some row) = inbox_direction row.task.direction_id

abbrev pub area_of : Option Direction → Option String
area_of none = none
area_of (some d) = d.area_id

abbrev pub direction_of : Option TaskRow → Option DirectionId
direction_of none = none
direction_of (some row) = row.task.direction_id

abbrev pub set_body : String → String → Review → Review
set_body body now r = record r { body = body; updated_at = now }

abbrev pub drafted : Option Review → Bool
drafted none = false
drafted (some r) = is_draft r.status

-- `INSERT INTO sin90_classify_evals ... SELECT ?, evaluated_at ... WHERE task_id = ?`
abbrev eval_key : ClassifyEval → TaskId
eval_key e = e.task_id

abbrev pub copy_eval :
    (new_id : TaskId) → Option ClassifyEval → List ClassifyEval → List ClassifyEval
copy_eval new_id none evals = evals
copy_eval new_id (some e) evals = evals ++ (record e { task_id = new_id } ∷ [])

-- the event of a transition, of which an operation gives the id
abbrev pub task_moved : TaskId → (from to : TaskStatus) → (now id : String) → Event
task_moved task_id from to now =
    event "task" task_id "transitioned" (some (task_status_wire from)) (some (task_status_wire to))
      (obj (field "task_id" (str task_id) end)) now

abbrev pub with_tasks : List TaskRow → Tables → Tables
with_tasks tasks db = record db { tasks = tasks }

module _ (env : Env) (now : String) where
  unfoldable pub apply_transition : TaskId → TaskStatus → Tx → StoreResult Tx
  apply_transition task_id to tx = do
    let db = tx.tables
    require_task_week_open task_id db
    from ← read_task_status task_id db
    transition_checked (check_task_transition from to)
    let tasks = update task_key task_id (set_status to now) db.tasks
    log_event env (task_moved task_id from to now) (wrote (with_tasks tasks db) tx)

  -- the loop over the order from a place on
  unfoldable pub reorder_loop : WeekId → ℕ → List TaskId → Tables → StoreResult Tables
  reorder_loop week_id place [] db = ok db
  reorder_loop week_id place (id ∷ order) db = do
    fail_if (not (in_week week_id (find_task id db))) (not_found "task" id)
    let tasks = update task_key id (set_sort_key place now) db.tasks
    reorder_loop week_id (suc place) order (with_tasks tasks db)

  unfoldable pub apply_reorder : WeekId → List TaskId → Tx → StoreResult Tx
  apply_reorder week_id order tx = do
    db ← reorder_loop week_id 0 order tx.tables
    let payload = obj (field "week_id" (str week_id) (field "order" (arr (strings order)) end))
    log_event env (event "week" week_id "reordered" none none payload now) (wrote db tx)

  unfoldable pub apply_adjust : RhythmId → List Alloc → Tx → StoreResult Tx
  apply_adjust rhythm_id new_alloc tx = do
    let db = tx.tables
    require_directions_exist new_alloc db
    from ← read_rhythm_status rhythm_id db
    transition_checked (check_rhythm_transition from RhythmStatus.adjusted)
    let rhythms = update Rhythm.id rhythm_id (adjust new_alloc now) db.rhythms
    let payload =
        obj (
          field "rhythm_id" (str rhythm_id) (field "allocations" (arr (alloc_items new_alloc)) end))
    let states =
        event "rhythm" rhythm_id "adjusted" (some (rhythm_status_wire from)) (some "adjusted")
          payload now
    log_event env states (wrote (record db { rhythms = rhythms }) tx)

  -- from the `INSERT` of the carried row on
  unfoldable pub insert_carried : TaskId → WeekId → TaskRow → Tx → StoreResult Tx
  insert_carried task_id to_week source tx = do
    let new_id = env.ulid tx.calls
    db ← insert_task (carried_task new_id to_week now source) tx.tables
    let evals = copy_eval new_id (select eval_key task_id db.classify_evals) db.classify_evals
    let payload = obj (
        field "id" (str new_id) (
          field "week_id" (str to_week) (
            field "carried_from" (str task_id)
              (field "direction_id" (opt_str source.task.direction_id) end))))
    log_event env (event "task" new_id "created" none (some "planned") payload now)
        (drew (record db { classify_evals = evals }) tx)

  unfoldable pub apply_carry_over : TaskId → WeekId → Tx → StoreResult Tx
  apply_carry_over task_id to_week tx = do
    let db = tx.tables
    require_task_week_open task_id db
    source ← found (find_task task_id db) (not_found "task" task_id)
    fail_if (same_text source.task.week_id to_week) (same_week_carry task_id)
    from ← read_task_status task_id db
    transition_checked (check_task_transition from TaskStatus.carried_over)
    let tasks = update task_key task_id (set_status TaskStatus.carried_over now) db.tasks
    closed ←
        log_event env (task_moved task_id from TaskStatus.carried_over now)
          (wrote (with_tasks tasks db) tx)
    insert_carried task_id to_week source closed

  unfoldable pub apply_assign :
      (capability_source : String) → TaskId → DirectionId → Tx → StoreResult Tx
  apply_assign source task_id direction_id tx = do
    let db = tx.tables
    require_task_week_open task_id db
    let area_id = area_of (find_direction direction_id db)
    let old = direction_of (find_task task_id db)
    fail_if (not (in_inbox (find_task task_id db))) (conflict "task" task_id)
    fail_if (not (triage_via_allowed (stamp (direction_id == triage_direction_id) source)))
        (check_failed "sin90_tasks")
    fail_if (not (is_some (find_direction direction_id db))) (foreign_key_failed "sin90_tasks")
    let tasks = update task_key task_id (set_direction source direction_id now) db.tasks
    let payload = obj (
        field "task_id" (str task_id) (
          field "from_direction_id" (opt_str old)
            (field "direction_id" (str direction_id) (field "area_id" (opt_str area_id) end))))
    log_event env (event "task" task_id "direction_assigned" none none payload now)
        (wrote (with_tasks tasks db) tx)

  unfoldable pub apply_draft : ReviewId → (body : String) → Tx → StoreResult Tx
  apply_draft review_id body tx = do
    let db = tx.tables
    fail_if (not (drafted (find_review review_id db))) (conflict "review" review_id)
    let reviews = update Review.id review_id (set_body body now) db.reviews
    let payload = obj (field "review_id" (str review_id) (field "body" (str body) end))
    log_event env (event "review" review_id "updated" none none payload now)
        (wrote (record db { reviews = reviews }) tx)
