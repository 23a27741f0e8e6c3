-- ===== src/Store/ApplyOp/Create.antt =====
-- src/store/repo.rs: the arms of `apply_op` that make areas, directions and tasks.
use sin.Prelude.{ℕ, suc, String, Option, none, some, List, [], ◌∷◌, map}
use sin.Core.Types.{
  DirectionId, TaskId, WeekId, Area, Direction, AreaStatus, DirectionStatus, TaskStatus, TaskKind,
  Energy,
}
use sin.Core.Proposal.Errors.{NewTask}
use sin.Store.Json.{str, obj, field, end, opt_str}
use sin.Store.Errors.{StoreResult, ok, ◌>>=◌}
use sin.Store.Slug.{allocate_area_slug}
use sin.Store.Tables.{TaskRow, Env, Tx}
use sin.Store.Tables.Statements.{
  slug_of, insert_area, insert_direction, insert_task, event, log_event, drew, parked, stamp,
}

abbrev pub new_area : (id title slug now : String) → Area
new_area id title slug now = record {
  id = id;
  title = title;
  slug = slug;
  status = AreaStatus.active;
  sort_key = 0;
  created_at = now;
  updated_at = now;
}

abbrev pub new_direction : (id title target_window now : String) → Direction
new_direction id title target_window now = record {
  id = id;
  area_id = none;
  title = title;
  status = DirectionStatus.draft;
  target_window = target_window;
  created_at = now;
  updated_at = now;
}

abbrev pub backlog_task :
    (id : TaskId) (direction_id : Option DirectionId) (parent_task_id : Option TaskId)
    (title : String) (kind : TaskKind) (energy : Energy) (est_minutes : Option ℕ) (now : String)
    → TaskRow
backlog_task id direction_id parent_task_id title kind energy est_minutes now = record {
  task = record {
    id = id;
    direction_id = direction_id;
    week_id = none;
    parent_task_id = parent_task_id;
    title = title;
    status = TaskStatus.backlog;
    kind = kind;
    energy = energy;
    est_minutes = est_minutes;
    carried_from = none;
    created_at = now;
    updated_at = now;
  };
  sort_key = 0;
  triage_via = stamp (parked direction_id) "direct";
  triage_entered_at = stamp (parked direction_id) now;
}

abbrev pub planned_task : (id : TaskId) → WeekId → (place : ℕ) → NewTask → (now : String) → TaskRow
planned_task id week_id place t now = record {
  task = record {
    id = id;
    direction_id = t.direction_id;
    week_id = some week_id;
    parent_task_id = none;
    title = t.title;
    status = TaskStatus.planned;
    kind = TaskKind.other;
    energy = Energy.mid;
    est_minutes = none;
    carried_from = none;
    created_at = now;
    updated_at = now;
  };
  sort_key = place;
  triage_via = stamp (parked t.direction_id) "direct";
  triage_entered_at = stamp (parked t.direction_id) now;
}

module _ (env : Env) (now : String) where
  unfoldable pub apply_create_area : String → Tx → StoreResult Tx
  apply_create_area title tx = do
    let id = env.ulid tx.calls
    let slug = allocate_area_slug title (map slug_of tx.tables.areas)
    db ← insert_area (new_area id title slug now) tx.tables
    let payload =
        obj (field "id" (str id) (field "title" (str title) (field "slug" (str slug) end)))
    log_event env (event "area" id "created" none (some "active") payload now) (drew db tx)

  unfoldable pub apply_create_task :
      (title : String) (direction_id : Option DirectionId) (parent_task_id : Option TaskId)
      (kind : TaskKind) (energy : Energy) (est_minutes : Option ℕ)
      → Tx
      → StoreResult Tx
  apply_create_task title direction_id parent_task_id kind energy est_minutes tx = do
    let id = env.ulid tx.calls
    let row = backlog_task id direction_id parent_task_id title kind energy est_minutes now
    db ← insert_task row tx.tables
    let payload = obj (
        field "id" (str id) (
          field "direction_id" (opt_str direction_id)
            (field "parent_task_id" (opt_str parent_task_id) (field "title" (str title) end))))
    log_event env (event "task" id "created" none (some "backlog") payload now) (drew db tx)

  unfoldable pub apply_create_direction : (title target_window : String) → Tx → StoreResult Tx
  apply_create_direction title target_window tx = do
    let id = env.ulid tx.calls
    db ← insert_direction (new_direction id title target_window now) tx.tables
    let payload = obj (
        field "id" (str id) (
          field "title" (str title)
            (field "status" (str "draft") (field "target_window" (str target_window) end))))
    log_event env (event "direction" id "created" none (some "draft") payload now) (drew db tx)

  -- the loop over the tasks from a place on
  unfoldable pub apply_create_tasks : WeekId → ℕ → List NewTask → Tx → StoreResult Tx
  apply_create_tasks week_id place [] tx = ok tx
  apply_create_tasks week_id place (t ∷ tasks) tx = do
    let id = env.ulid tx.calls
    db ← insert_task (planned_task id week_id place t now) tx.tables
    let payload = obj (
        field "id" (str id) (
          field "week_id" (str week_id)
            (field "title" (str t.title) (field "direction_id" (opt_str t.direction_id) end))))
    next ← log_event env (event "task" id "created" none (some "planned") payload now) (drew db tx)
    apply_create_tasks week_id (suc place) tasks next
