-- ===== src/Store/Direct/Logged.antt =====
-- src/store/repo.rs: what each direct write does to the log of events, the proposals and the soundness
-- of the tasks.
use sin.Prelude.{ℕ, String, ◌≡◌, refl, ap, not, Option, List, [], ◌∷◌, ◌++◌}
use sin.Core.Types.{
  AreaId, DirectionId, TaskId, WeekId, Alloc, AreaStatus, TaskStatus, WeekStatus,
  ScheduleBlockStatus, TaskKind, Energy, ScheduleBlock, Direction, Area,
}
use sin.Core.Transitions.{
  check_area_transition, check_task_transition, check_week_transition,
  check_schedule_block_transition,
}
use sin.Core.Proposal.Alloc.{check_alloc}
use sin.Store.Errors.{
  Event, StoreResult, ok, ◌>>=◌, Ends, returns, Ends-bind, Ends-fail_if, Ends-found, Ends-map,
  transition_checked,
}
use sin.Store.Rows.{is_some, select, column}
use sin.Store.Tables.{Tables, Env, task_key, find_task, find_week, find_rhythm, is_known}
use sin.Store.Tables.Statements.{begin, append_event, event_id, require_task_week_open}
use sin.Store.ApplyOp.Create.{new_area, backlog_task}
use sin.Store.ApplyOp.Change.{require_directions_exist}
use sin.Store.ApplyOp.Effects.{
  with_event, insert_area-Ends, insert_direction-Ends, insert_task-Ends,
}
use sin.Store.ApplyOp.Keeps.{Any, status_of}
use sin.Store.ApplyOp.Kept.{observe, allowed}
use sin.Store.Proposals.Stamps.{AllStamped, AllClosed, stamps_kept, closed_kept}
use sin.Store.Direct.{
  create_area, transition_area, create_direction, create_rhythm, transition_week, create_block,
  transition_block, create_task, transition_task, alloc_checked, parent_checked,
}

-- one event more, and the same proposals
pub record IsLogged (db after : Tables) : Type 0 where
  pub entry : Event
  pub events : after.events ≡ db.events ++ (entry ∷ [])
  pub proposals : after.proposals ≡ db.proposals

abbrev pub AreTasksSound : Tables → Type 0
AreTasksSound db = AllStamped (begin 0 db) × AllClosed (begin 0 db)

pub record IsWrite (db after : Tables) : Type 0 where
  pub logged : IsLogged db after
  pub sound : AreTasksSound db → AreTasksSound after

abbrev pub Writes : {A : Type 0} → Tables → StoreResult (A × Tables) → Type 0
Writes {A} db r = Ends (λ got. IsWrite db got.1) Any r

module _ (env : Env) where
  pub append_event-Ends :
      (columns : String → Event) (calls : ℕ) (db : Tables)
      → Ends
          (λ next. next.tables ≡ with_event (columns (env.ulid calls)) db)
          Any
          (append_event env columns (begin calls db))
  unfolding append_event
  append_event-Ends columns calls db =
      Ends-fail_if (is_some (select event_id (env.ulid calls) db.events)) _ _ (λ q. tt)
        λ q. returns _ refl

  -- the end of each write: its event, and the result
  finish :
      {A : Type 0} (a : A) (columns : String → Event) (calls : ℕ) (db mid : Tables)
      → mid.events ≡ db.events
      → mid.proposals ≡ db.proposals
      → (AreTasksSound db → AreTasksSound mid)
      → Writes db (append_event env columns (begin calls mid) >>= λ tx. ok (a, tx.tables))
  finish a columns calls db mid e p s = Ends-bind (append_event-Ends columns calls mid) λ tx q.
      returns _ (
        rw q (record {
          logged = record {
            entry = columns (env.ulid calls);
            events = ap (λ es. es ++ (columns (env.ulid calls) ∷ [])) e;
            proposals = p;
          };
          sound = λ h. s h;
        }))

  pub create_area-Writes : (title : String) (db : Tables) → Writes db (create_area env title db)
  unfolding create_area
  create_area-Writes title db =
      Ends-bind
        (Ends-map (λ next e. e) (λ e q. tt)
          (insert_area-Ends (new_area (env.ulid 0) title _ (env.now_iso8601 1)) db))
        λ next e. rw e (finish _ _ 2 db _ refl refl (λ h. h))

  pub transition_area-Writes :
      (id : AreaId) (to : AreaStatus) (db : Tables) → Writes db (transition_area env id to db)
  unfolding transition_area
  transition_area-Writes id to db =
      Ends-found (select Area.id id db.areas) _ _ (λ e. tt)
        λ row e.
          Ends-bind (observe (transition_checked (check_area_transition row.status to)))
            λ u q. finish _ _ 1 db _ refl refl (λ h. h)

  pub create_direction-Writes :
      (title target_window : String) (area_id : Option AreaId) (db : Tables)
      → Writes db (create_direction env title target_window area_id db)
  unfolding create_direction
  create_direction-Writes title target_window area_id db =
      Ends-bind (Ends-map (λ next e. e) (λ e q. tt) (insert_direction-Ends _ db))
        λ next e. rw e (finish _ _ 2 db _ refl refl (λ h. h))

  pub create_rhythm-Writes :
      (allocations : List Alloc) (db : Tables) → Writes db (create_rhythm env allocations db)
  unfolding create_rhythm
  create_rhythm-Writes allocations db =
      Ends-bind (observe (alloc_checked (check_alloc allocations))) λ u q.
        Ends-bind (observe (require_directions_exist allocations db)) λ v r.
          Ends-fail_if (is_some (find_rhythm (env.ulid 0) db)) _ _ (λ e. tt)
            λ e. finish _ _ 2 db _ refl refl (λ h. h)

  pub transition_week-Writes :
      (id : WeekId) (to : WeekStatus) (db : Tables) → Writes db (transition_week env id to db)
  unfolding transition_week
  transition_week-Writes id to db =
      Ends-found (find_week id db) _ _ (λ e. tt)
        λ row e.
          Ends-bind (observe (transition_checked (check_week_transition row.status to)))
            λ u q. finish _ _ 1 db _ refl refl (λ h. h)

  pub create_block-Writes :
      (direction_id : Option DirectionId) (task_id : Option TaskId) (planned_minutes : ℕ)
      (db : Tables)
      → Writes db (create_block env direction_id task_id planned_minutes db)
  unfolding create_block
  create_block-Writes direction_id task_id planned_minutes db =
      Ends-fail_if (is_some (select ScheduleBlock.id (env.ulid 0) db.blocks)) _ _ (λ e. tt)
        λ e.
          Ends-fail_if (not (is_known Direction.id direction_id db.directions)) _ _ (λ e. tt)
            λ e.
              Ends-fail_if (not (is_known task_key task_id db.tasks)) _ _ (λ e. tt)
                λ e. finish _ _ 2 db _ refl refl (λ h. h)

  pub transition_block-Writes :
      (id : String) (to : ScheduleBlockStatus) (db : Tables)
      → Writes db (transition_block env id to db)
  unfolding transition_block
  transition_block-Writes id to db =
      Ends-found (select ScheduleBlock.id id db.blocks) _ _ (λ e. tt)
        λ row e.
          Ends-bind (observe (transition_checked (check_schedule_block_transition row.status to)))
            λ u q. finish _ _ 1 db _ refl refl (λ h. h)

  pub create_task-Writes :
      (title : String) (direction_id : Option DirectionId) (parent_task_id : Option TaskId)
      (kind : TaskKind) (energy : Energy) (est_minutes : Option ℕ) (db : Tables)
      → Writes db (create_task env title direction_id parent_task_id kind energy est_minutes db)
  unfolding create_task
  create_task-Writes title d parent kind energy est db =
      Ends-bind (observe (parent_checked parent db)) λ u q.
        Ends-bind
          (Ends-map (λ next i. i.tables) (λ e q. tt)
            (insert_task-Ends (backlog_task _ d parent title kind energy est _) db))
          λ next e. rw e (
            finish _ _ 2 db _ refl refl λ h. (
              (stamps_kept env "").backlog d parent title kind energy est (env.now_iso8601 1)
                  (begin 0 db) h.0,
              (closed_kept env "").backlog d parent title kind energy est (env.now_iso8601 1)
                  (begin 0 db) h.1,
            ))

  pub transition_task-Writes :
      (id : TaskId) (to : TaskStatus) (db : Tables) → Writes db (transition_task env id to db)
  unfolding transition_task
  transition_task-Writes id to db =
      Ends-found (find_task id db) _ _ (λ e. tt)
        λ row f. Ends-bind (observe (require_task_week_open id db)) λ u q.
          Ends-bind (observe (transition_checked (check_task_transition row.task.status to))) λ v r.
            let known = ap (column status_of) f in
            let legal = allowed row.task.status to v r in
            finish _ _ 1 db _ refl refl λ h. (
              (stamps_kept env "").status id row.task.status to (env.now_iso8601 0) (begin 0 db) h.0
                  known legal,
              (closed_kept env "").status id row.task.status to (env.now_iso8601 0) (begin 0 db) h.1
                  known legal,
            )
