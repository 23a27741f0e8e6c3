-- ===== src/Store/Proposals/Snapshot.antt =====
-- src/store/repo.rs: `DbSnapshot`, what the validator asks of it, and `build_snapshot` with its loads.
-- SHA-256 (the crates sha2 and hex) is the parameter `body_sha256`.
use sin.Prelude.{String, Bool, true, false, ◌&&◌, Option, none, some, List, [], ◌∷◌, if◌then◌else◌}
use sin.Prelude.Text.{lookup, contains}
use sin.Core.Types.{
  TaskStatus, WeekStatus, DirectionStatus, RhythmStatus, Area, Week, Direction, Rhythm, Review,
  triage_direction_id,
}
use sin.Core.Proposal.Errors.{
  Sin90Op, create_area, create_task, create_direction, transition_task, create_tasks, reorder_tasks,
  adjust_rhythm, carry_over_task, assign_task_direction, draft_review_body, ReviewSnap,
}
use sin.Core.Proposal.Working.{ValidationCtx}
use sin.Store.Rows.{is_some, column, select}
use sin.Store.Tables.{
  TaskRow, Tables, find_task, find_direction, find_week, find_rhythm, find_review,
}
use sin.Store.Tables.Statements.{same_text}

pub record DbSnapshot : Type 0 where
  pub tasks : List (String × TaskStatus)
  pub task_parents : List (String × Option String)
  pub weeks : List (String × WeekStatus)
  pub rhythms_retired : List (String × Bool)
  pub areas : List String
  pub direction_statuses : List (String × DirectionStatus)
  pub task_directions : List (String × Option String)
  pub reviews : List (String × ReviewSnap)
  pub triage_via_classify : List String

abbrev pub empty_snapshot : DbSnapshot
empty_snapshot = record {
  tasks = [];
  task_parents = [];
  weeks = [];
  rhythms_retired = [];
  areas = [];
  direction_statuses = [];
  task_directions = [];
  reviews = [];
  triage_via_classify = [];
}

-- `impl ValidationCtx for DbSnapshot`
unfoldable pub snapshot_ctx : DbSnapshot → ValidationCtx
unfolding lookup contains
snapshot_ctx snap = record {
  task_status = λ id. lookup id snap.tasks;
  week_status = λ id. lookup id snap.weeks;
  rhythm_is_retired = λ id. lookup id snap.rhythms_retired;
  area_exists = λ id. contains id snap.areas;
  task_parent = λ id. lookup id snap.task_parents;
  direction_status = λ id. lookup id snap.direction_statuses;
  task_triage_via_classify = λ id. contains id snap.triage_via_classify;
  task_direction = λ id. lookup id snap.task_directions;
  review_snap = λ id. lookup id snap.reviews;
}

-- the columns that are read
abbrev pub task_status_column : TaskRow → TaskStatus
task_status_column row = row.task.status

abbrev pub task_parent_column : TaskRow → Option String
task_parent_column row = row.task.parent_task_id

abbrev pub task_direction_column : TaskRow → Option String
task_direction_column row = row.task.direction_id

abbrev retired_status : RhythmStatus → Bool
retired_status RhythmStatus.retired = true
retired_status _ = false

abbrev pub is_retired : Rhythm → Bool
is_retired r = retired_status r.status

abbrev pub week_status_column : Week → WeekStatus
week_status_column w = w.status

abbrev pub direction_status_column : Direction → DirectionStatus
direction_status_column d = d.status

-- `snap.x.insert(...)` if there is a row
abbrev pub insert_found : {V : Type 0} → String → Option V → List (String × V) → List (String × V)
insert_found id none m = m
insert_found id (some v) m = (id, v) ∷ m

-- `via.as_deref() == Some("classify")`
abbrev pub via_classify : Option TaskRow → Bool
via_classify none = false
via_classify (some row) = same_text row.triage_via "classify"

abbrev pub is_parked : Option (Option String) → Bool
is_parked none = false
is_parked (some direction) = same_text direction triage_direction_id

module _ (body_sha256 : String → String) (db : Tables) where
  abbrev pub review_column : Review → ReviewSnap
  review_column r = record { status = r.status; body_sha256 = body_sha256 r.body }

  unfoldable pub load_task : String → DbSnapshot → DbSnapshot
  load_task id snap = record snap {
    tasks = insert_found id (column task_status_column (find_task id db)) snap.tasks;
  }

  unfoldable pub load_task_parent : String → DbSnapshot → DbSnapshot
  load_task_parent id snap = record snap {
    task_parents = insert_found id (column task_parent_column (find_task id db)) snap.task_parents;
  }

  unfoldable pub load_week : String → DbSnapshot → DbSnapshot
  load_week id snap = record snap {
    weeks = insert_found id (column week_status_column (find_week id db)) snap.weeks;
  }

  unfoldable pub load_task_direction : String → DbSnapshot → DbSnapshot
  load_task_direction id snap = record snap {
    task_directions =
        insert_found id (column task_direction_column (find_task id db)) snap.task_directions;
  }

  unfoldable pub load_task_triage_via_classify : String → DbSnapshot → DbSnapshot
  load_task_triage_via_classify id snap = record snap {
    triage_via_classify =
        if via_classify (find_task id db)
        then id ∷ snap.triage_via_classify
        else snap.triage_via_classify;
  }

  unfoldable pub load_direction_status : String → DbSnapshot → DbSnapshot
  load_direction_status id snap = record snap {
    direction_statuses =
        insert_found id (column direction_status_column (find_direction id db))
          snap.direction_statuses;
  }

  unfoldable pub load_review_snap : String → DbSnapshot → DbSnapshot
  load_review_snap id snap = record snap {
    reviews = insert_found id (column review_column (find_review id db)) snap.reviews;
  }

  unfoldable pub load_rhythm : String → DbSnapshot → DbSnapshot
  load_rhythm id snap = record snap {
    rhythms_retired = insert_found id (column is_retired (find_rhythm id db)) snap.rhythms_retired;
  }

  -- the arm `AssignTaskDirection`, when the task and the direction are loaded
  unfoldable pub load_provenance : String → DbSnapshot → DbSnapshot
  unfolding lookup load_task_triage_via_classify
  load_provenance task_id snap =
      if is_parked (lookup task_id snap.task_directions)
      then load_task_triage_via_classify task_id snap
      else snap

  unfoldable pub load_op : Sin90Op → DbSnapshot → DbSnapshot
  load_op (create_area title) snap = snap
  load_op (create_direction title target_window) snap = snap
  load_op (create_task title d none k e m) snap = snap
  load_op (create_task title d (some parent) k e m) snap = load_task_parent parent snap
  load_op (transition_task task_id to) snap = load_task task_id snap
  load_op (create_tasks week_id tasks) snap = load_week week_id snap
  load_op (reorder_tasks week_id order) snap = load_week week_id snap
  load_op (adjust_rhythm rhythm_id new_alloc) snap = load_rhythm rhythm_id snap
  load_op (carry_over_task task_id to_week) snap = load_week to_week (load_task task_id snap)
  load_op (assign_task_direction task_id direction_id) snap =
      load_provenance task_id
        (load_direction_status direction_id (load_task_direction task_id (load_task task_id snap)))
  load_op (draft_review_body review_id base body) snap = load_review_snap review_id snap

  -- the loop over the ops
  unfoldable pub load_ops : List Sin90Op → DbSnapshot → DbSnapshot
  unfolding load_op
  load_ops [] snap = snap
  load_ops (op ∷ ops) snap = load_ops ops (load_op op snap)

  unfoldable pub build_snapshot : List Sin90Op → DbSnapshot
  unfolding load_ops
  build_snapshot ops = load_ops ops empty_snapshot

  -- every question of the validator, put to the tables themselves
  abbrev pub live_ctx : ValidationCtx
  live_ctx = record {
    task_status = λ id. column task_status_column (find_task id db);
    week_status = λ id. column week_status_column (find_week id db);
    rhythm_is_retired = λ id. column is_retired (find_rhythm id db);
    area_exists = λ id. is_some (select Area.id id db.areas);
    task_parent = λ id. column task_parent_column (find_task id db);
    direction_status = λ id. column direction_status_column (find_direction id db);
    task_triage_via_classify = λ id.
        is_parked (column task_direction_column (find_task id db))
        && via_classify (find_task id db);
    task_direction = λ id. column task_direction_column (find_task id db);
    review_snap = λ id. column review_column (find_review id db);
  }
