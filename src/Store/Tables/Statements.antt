-- ===== src/Store/Tables/Statements.antt =====
-- src/store/repo.rs: the statements that more than one operation makes, with `append_event`,
-- `read_task_status`, `read_rhythm_status` and `require_task_week_open`. A statement fails where a
-- constraint of its table does; foreign keys are checked when the row is in.
use sin.Prelude.{
  ℕ, suc, String, Bool, true, false, not, ◌&&◌, Option, none, some, List, [], ◌∷◌, ◌++◌, ◌==◌,
  any_of,
}
use sin.Core.Types.{
  DirectionId, TaskId, Area, Direction, Task, Week, TaskStatus, RhythmStatus, triage_direction_id,
}
use sin.Core.Transitions.{week_is_open}
use sin.Store.Json.{Value}
use sin.Store.Errors.{
  not_found, week_not_open, unique_failed, foreign_key_failed, check_failed, StoreResult, ok, ◌>>=◌,
  ◌>>◌, fail_if, found, Event,
}
use sin.Store.Rows.{is_some, select}
use sin.Store.Tables.{
  TaskRow, Tables, Env, Tx, task_key, find_task, find_direction, find_week, find_rhythm, is_known,
  triage_via_allowed,
}

abbrev pub same_text : Option String → String → Bool
same_text none s = false
same_text (some t) s = t == s

-- the one successor that a carried task may have
abbrev pub is_carried : Option TaskId → List TaskRow → Bool
is_carried none rows = false
is_carried (some id) rows = any_of (λ row. same_text row.task.carried_from id) rows

abbrev pub slug_of : Area → String
slug_of area = area.slug

unfoldable pub insert_area : Area → Tables → StoreResult Tables
insert_area area db = do
  fail_if (is_some (select Area.id area.id db.areas)) (unique_failed "sin90_areas")
  fail_if (is_some (select slug_of area.slug db.areas)) (unique_failed "sin90_areas")
  ok (record db { areas = db.areas ++ (area ∷ []) })

unfoldable pub insert_direction : Direction → Tables → StoreResult Tables
insert_direction direction db = do
  fail_if (is_some (find_direction direction.id db)) (unique_failed "sin90_directions")
  fail_if (not (is_known Area.id direction.area_id db.areas))
      (foreign_key_failed "sin90_directions")
  ok (record db { directions = db.directions ++ (direction ∷ []) })

-- the references of a task, with the tasks that are there
abbrev pub references_hold : Task → List TaskRow → Tables → Bool
references_hold task tasks db =
    is_known Direction.id task.direction_id db.directions
    && is_known Week.id task.week_id db.weeks
    && is_known task_key task.parent_task_id tasks
    && is_known task_key task.carried_from tasks

unfoldable pub insert_task : TaskRow → Tables → StoreResult Tables
insert_task row db = do
  fail_if (not (triage_via_allowed row.triage_via)) (check_failed "sin90_tasks")
  fail_if (is_some (find_task row.task.id db)) (unique_failed "sin90_tasks")
  fail_if (is_carried row.task.carried_from db.tasks) (unique_failed "sin90_tasks")
  let tasks = db.tasks ++ (row ∷ [])
  fail_if (not (references_hold row.task tasks db)) (foreign_key_failed "sin90_tasks")
  ok (record db { tasks = tasks })

-- the columns of an event, but for its id
abbrev pub event :
    (entity entity_id kind : String) (from_state to_state : Option String) (payload : Value)
    (at id : String)
    → Event
event entity entity_id kind from_state to_state payload at id = record {
  id = id;
  entity = entity;
  entity_id = entity_id;
  kind = kind;
  from_state = from_state;
  to_state = to_state;
  payload = payload;
  at = at;
}

abbrev pub event_id : Event → String
event_id e = e.id

unfoldable pub append_event : Env → (String → Event) → Tx → StoreResult Tx
append_event env columns tx = do
  let id = env.ulid tx.calls
  let db = tx.tables
  fail_if (is_some (select event_id id db.events)) (unique_failed "sin90_events")
  ok (record tx {
    tables = record db { events = db.events ++ (columns id ∷ []) };
    calls = suc tx.calls;
  })

-- `append_event(...)` and `event_ids.push(...)`
unfoldable pub log_event : Env → (String → Event) → Tx → StoreResult Tx
log_event env columns tx = do
  next ← append_event env columns tx
  ok (record next { event_ids = tx.event_ids ++ (env.ulid tx.calls ∷ []) })

-- what `triage_via` and `triage_entered_at` become when a task gets a direction
abbrev pub parked : Option DirectionId → Bool
parked direction_id = same_text direction_id triage_direction_id

abbrev pub stamp : Bool → String → Option String
stamp true s = some s
stamp false s = none

unfoldable pub read_task_status : TaskId → Tables → StoreResult TaskStatus
read_task_status id db = do row ← found (find_task id db) (not_found "task" id); ok row.task.status

unfoldable pub read_rhythm_status : String → Tables → StoreResult RhythmStatus
read_rhythm_status id db = do row ← found (find_rhythm id db) (not_found "rhythm" id); ok row.status

abbrev pub week_named : Tables → Option String → Option Week
week_named db none = none
week_named db (some id) = find_week id db

-- the week of the row that the join finds
abbrev pub joined_week : Tables → Option TaskRow → Option Week
joined_week db none = none
joined_week db (some row) = week_named db row.task.week_id

abbrev pub check_week : TaskId → Option Week → StoreResult (Unit {0})
check_week id none = ok tt
check_week id (some week) = fail_if (not (week_is_open week.status)) (week_not_open id)

unfoldable pub require_task_week_open : TaskId → Tables → StoreResult (Unit {0})
require_task_week_open id db = check_week id (joined_week db (find_task id db))

abbrev pub with_status : TaskStatus → String → Task → Task
with_status to now task = record task { status = to; updated_at = now }

-- `UPDATE sin90_tasks SET status = ?, updated_at = ? WHERE id = ?`
abbrev pub set_status : TaskStatus → String → TaskRow → TaskRow
set_status to now row = record row { task = with_status to now row.task }

abbrev pub task_status_wire : TaskStatus → String
task_status_wire TaskStatus.backlog = "backlog"
task_status_wire TaskStatus.planned = "planned"
task_status_wire TaskStatus.in_progress = "in_progress"
task_status_wire TaskStatus.done = "done"
task_status_wire TaskStatus.dropped = "dropped"
task_status_wire TaskStatus.carried_over = "carried_over"

abbrev pub rhythm_status_wire : RhythmStatus → String
rhythm_status_wire RhythmStatus.active = "active"
rhythm_status_wire RhythmStatus.adjusted = "adjusted"
rhythm_status_wire RhythmStatus.retired = "retired"

-- the transaction with other tables, after one more call of `ulid()`
abbrev pub drew : Tables → Tx → Tx
drew db tx = record tx { tables = db; calls = suc tx.calls }

-- the transaction with other tables
abbrev pub wrote : Tables → Tx → Tx
wrote db tx = record tx { tables = db }

-- a transaction at its beginning, after the calls that were made
abbrev pub begin : ℕ → Tables → Tx
begin calls db = record { tables = db; calls = calls; event_ids = [] }
