-- ===== src/Store/Direct.antt =====
-- src/store/repo.rs: the direct writes of areas, directions, rhythms, weeks, schedule blocks and tasks.
pub mod Logged
pub mod Writes
pub mod Attention
pub mod Credits
use sin.Prelude.{ℕ, String, not, Option, none, some, List, map}
use sin.Core.Types.{
  AreaId, DirectionId, TaskId, WeekId, Area, Direction, Task, Week, Rhythm, ScheduleBlock, Alloc,
  AreaStatus, DirectionStatus, TaskStatus, WeekStatus, RhythmStatus, ScheduleBlockStatus, TaskKind,
  Energy,
}
use sin.Core.Transitions.{
  check_area_transition, check_task_transition, check_week_transition,
  check_schedule_block_transition,
}
use sin.Core.Proposal.Errors.{Result}
use sin.Core.Proposal.Errors
use sin.Core.Proposal.Alloc.{check_alloc}
use sin.Store.Json.{Value, str, num, arr, obj, field, end, opt_str}
use sin.Store.Errors.{
  not_found, conflict, invalid, bad_alloc, unique_failed, foreign_key_failed, StoreResult, ok, err,
  ◌>>=◌, ◌>>◌, fail_if, found, transition_checked,
}
use sin.Store.Rows.{is_some, select, update, append}
use sin.Store.Slug.{allocate_area_slug}
use sin.Store.Tables.{TaskRow, Tables, Env, task_key, find_task, find_week, find_rhythm, is_known}
use sin.Store.Tables.Statements.{
  slug_of, insert_area, insert_direction, insert_task, event, append_event, begin,
  require_task_week_open, set_status, with_status,
}
use sin.Store.ApplyOp.Create.{new_area, backlog_task}
use sin.Store.ApplyOp.Change.{require_directions_exist, with_tasks, task_moved, alloc_items}

abbrev pub area_status_wire : AreaStatus → String
area_status_wire AreaStatus.active = "active"
area_status_wire AreaStatus.archived = "archived"

abbrev pub week_status_wire : WeekStatus → String
week_status_wire WeekStatus.planning = "planning"
week_status_wire WeekStatus.active = "active"
week_status_wire WeekStatus.reviewing = "reviewing"
week_status_wire WeekStatus.closed = "closed"

abbrev pub block_status_wire : ScheduleBlockStatus → String
block_status_wire ScheduleBlockStatus.planned = "planned"
block_status_wire ScheduleBlockStatus.started = "started"
block_status_wire ScheduleBlockStatus.completed = "completed"
block_status_wire ScheduleBlockStatus.skipped = "skipped"

abbrev pub set_area_status : AreaStatus → String → Area → Area
set_area_status to now row = record row { status = to; updated_at = now }

abbrev pub set_week_status : WeekStatus → String → Week → Week
set_week_status to now row = record row { status = to; updated_at = now }

abbrev pub set_block_status : ScheduleBlockStatus → String → ScheduleBlock → ScheduleBlock
set_block_status to now row = record row { status = to; updated_at = now }

abbrev pub opt_text : {A : Type 0} → (A → String) → Option A → Value
opt_text f none = opt_str none
opt_text f (some a) = str (f a)

-- the row that an optional reference names
abbrev pub follow : {A : Type 0} → (A → String) → Option String → List A → Option A
follow key none rows = none
follow key (some id) rows = select key id rows

-- the week that the task of a block is in
abbrev pub week_of : Option TaskRow → Value
week_of none = opt_str none
week_of (some row) = opt_str row.task.week_id

-- `check_alloc(...).map_err(|e| StoreError::Invalid(...))`
abbrev pub alloc_checked : Result (Unit {0}) → StoreResult (Unit {0})
alloc_checked (Errors.ok u) = ok tt
alloc_checked (Errors.err e) = err (invalid (bad_alloc e))

-- the parent of a new task: it must be there and have none itself
abbrev pub parent_checked : Option TaskId → Tables → StoreResult (Unit {0})
parent_checked none db = ok tt
parent_checked (some parent_id) db = do
  row ← found (find_task parent_id db) (not_found "task" parent_id)
  fail_if (is_some row.task.parent_task_id) (conflict "task" parent_id)

module _ (env : Env) where
  unfoldable pub create_area : String → Tables → StoreResult (Area × Tables)
  create_area title db = do
    let id = env.ulid 0
    let now = env.now_iso8601 1
    let slug = allocate_area_slug title (map slug_of db.areas)
    let area = new_area id title slug now
    next ← insert_area area db
    let payload = obj (
        field "id" (str id)
          (field "title" (str title) (field "slug" (str slug) (field "status" (str "active") end))))
    tx ←
        append_event env (event "area" id "created" none (some "active") payload now) (begin 2 next)
    ok (area, tx.tables)

  unfoldable pub transition_area : AreaId → AreaStatus → Tables → StoreResult (Area × Tables)
  transition_area id to db = do
    row ← found (select Area.id id db.areas) (not_found "area" id)
    transition_checked (check_area_transition row.status to)
    let now = env.now_iso8601 0
    let next = record db { areas = update Area.id id (set_area_status to now) db.areas }
    tx ←
        append_event env
          (event "area" id "transitioned" (some (area_status_wire row.status))
            (some (area_status_wire to)) (obj (field "area_id" (str id) end)) now)
          (begin 1 next)
    ok (set_area_status to now row, tx.tables)

  unfoldable pub create_direction :
      (title target_window : String) → Option AreaId → Tables → StoreResult (Direction × Tables)
  create_direction title target_window area_id db = do
    let id = env.ulid 0
    let now = env.now_iso8601 1
    let direction : Direction = record {
      id = id;
      area_id = area_id;
      title = title;
      status = DirectionStatus.draft;
      target_window = target_window;
      created_at = now;
      updated_at = now;
    }
    next ← insert_direction direction db
    let payload = obj (
        field "id" (str id) (
          field "area_id" (opt_str area_id) (
            field "title" (str title)
              (field "status" (str "draft") (field "target_window" (str target_window) end)))))
    tx ←
        append_event env (event "direction" id "created" none (some "draft") payload now)
          (begin 2 next)
    ok (direction, tx.tables)

  unfoldable pub create_rhythm : List Alloc → Tables → StoreResult (Rhythm × Tables)
  create_rhythm allocations db = do
    alloc_checked (check_alloc allocations)
    let id = env.ulid 0
    let now = env.now_iso8601 1
    require_directions_exist allocations db
    let rhythm : Rhythm = record {
      id = id;
      status = RhythmStatus.active;
      allocations = allocations;
      created_at = now;
      updated_at = now;
    }
    fail_if (is_some (find_rhythm id db)) (unique_failed "sin90_rhythms")
    let payload = obj (
        field "id" (str id)
          (field "status" (str "active") (field "allocations" (arr (alloc_items allocations)) end)))
    tx ←
        append_event env (event "rhythm" id "created" none (some "active") payload now)
          (begin 2 (record db { rhythms = append db.rhythms rhythm }))
    ok (rhythm, tx.tables)

  unfoldable pub transition_week : WeekId → WeekStatus → Tables → StoreResult (Week × Tables)
  transition_week id to db = do
    row ← found (find_week id db) (not_found "week" id)
    transition_checked (check_week_transition row.status to)
    let now = env.now_iso8601 0
    let next = record db { weeks = update Week.id id (set_week_status to now) db.weeks }
    tx ←
        append_event env
          (event "week" id "transitioned" (some (week_status_wire row.status))
            (some (week_status_wire to)) (obj (field "week_id" (str id) end)) now)
          (begin 1 next)
    ok (set_week_status to now row, tx.tables)

  unfoldable pub create_block :
      Option DirectionId → Option TaskId → ℕ → Tables → StoreResult (ScheduleBlock × Tables)
  create_block direction_id task_id planned_minutes db = do
    let id = env.ulid 0
    let now = env.now_iso8601 1
    let block : ScheduleBlock = record {
      id = id;
      direction_id = direction_id;
      task_id = task_id;
      status = ScheduleBlockStatus.planned;
      planned_minutes = planned_minutes;
      created_at = now;
      updated_at = now;
    }
    fail_if (is_some (select ScheduleBlock.id id db.blocks)) (unique_failed "sin90_schedule_blocks")
    fail_if (not (is_known Direction.id direction_id db.directions))
        (foreign_key_failed "sin90_schedule_blocks")
    fail_if (not (is_known task_key task_id db.tasks)) (foreign_key_failed "sin90_schedule_blocks")
    let payload = obj (
        field "id" (str id) (
          field "direction_id" (opt_str direction_id)
            (field "planned_minutes" (num planned_minutes) end)))
    tx ←
        append_event env (event "block" id "created" none (some "planned") payload now)
          (begin 2 (record db { blocks = append db.blocks block }))
    ok (block, tx.tables)

  unfoldable pub transition_block :
      String → ScheduleBlockStatus → Tables → StoreResult (ScheduleBlock × Tables)
  transition_block id to db = do
    row ← found (select ScheduleBlock.id id db.blocks) (not_found "schedule_block" id)
    transition_checked (check_schedule_block_transition row.status to)
    let now = env.now_iso8601 0
    let next = record db { blocks = update ScheduleBlock.id id (set_block_status to now) db.blocks }
    let title = opt_text Direction.title (follow Direction.id row.direction_id db.directions)
    let payload = obj (
        field "block_id" (str id) (
          field "direction_id" (opt_str row.direction_id) (
            field "week_id" (week_of (follow task_key row.task_id db.tasks)) (
              field "direction_title" title
                (field "minutes" (num row.planned_minutes) (field "occurred_at" (str now) end))))))
    tx ←
        append_event env
          (event "block" id "transitioned" (some (block_status_wire row.status))
            (some (block_status_wire to)) payload now)
          (begin 1 next)
    ok (set_block_status to now row, tx.tables)

  unfoldable pub create_task :
      (title : String)
      → Option DirectionId
      → Option TaskId
      → TaskKind
      → Energy
      → Option ℕ
      → Tables
      → StoreResult (Task × Tables)
  create_task title direction_id parent_task_id kind energy est_minutes db = do
    parent_checked parent_task_id db
    let id = env.ulid 0
    let now = env.now_iso8601 1
    let row = backlog_task id direction_id parent_task_id title kind energy est_minutes now
    next ← insert_task row db
    let payload = obj (
        field "id" (str id) (
          field "direction_id" (opt_str direction_id)
            (field "parent_task_id" (opt_str parent_task_id) (field "title" (str title) end))))
    tx ←
        append_event env (event "task" id "created" none (some "backlog") payload now)
          (begin 2 next)
    ok (row.task, tx.tables)

  unfoldable pub transition_task : TaskId → TaskStatus → Tables → StoreResult (Task × Tables)
  transition_task id to db = do
    row ← found (find_task id db) (not_found "task" id)
    require_task_week_open id db
    transition_checked (check_task_transition row.task.status to)
    let now = env.now_iso8601 0
    let tasks = update task_key id (set_status to now) db.tasks
    tx ← append_event env (task_moved id row.task.status to now) (begin 1 (with_tasks tasks db))
    ok (with_status to now row.task, tx.tables)
