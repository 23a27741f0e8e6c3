-- ===== src/Store/Direct/Writes.antt =====
-- src/store/repo.rs: the direct writes as steps, and what they and the operations on proposals keep.
use sin.Prelude.{ℕ, String, ◌≡◌, Option, List, subst}
use sin.Core.Types.{
  AreaId, DirectionId, TaskId, WeekId, Alloc, Area, Direction, Task, Week, Rhythm, ScheduleBlock,
  AreaStatus, TaskStatus, WeekStatus, ScheduleBlockStatus, TaskKind, Energy,
}
use sin.Core.Proposal.Errors.{Sin90Op}
use sin.Store.Errors.{StoreResult, ok, Ends, Ends-ok}
use sin.Store.Tables.{Tables, Env}
use sin.Store.ApplyOp.Keeps.{Any}
use sin.Store.Proposals.Steps.{Step}
use sin.Store.Proposals.Final.{IsTaskSound, proposals_keep_tasks}
use sin.Store.Proposals.Steps.{none_yet, then_}
use sin.Store.Direct.{
  create_area, transition_area, create_direction, create_rhythm, transition_week, create_block,
  transition_block, create_task, transition_task,
}
use sin.Store.Direct.Logged.{
  IsLogged, IsWrite, Writes, create_area-Writes, transition_area-Writes, create_direction-Writes,
  create_rhythm-Writes, transition_week-Writes, create_block-Writes, transition_block-Writes,
  create_task-Writes, transition_task-Writes,
}

-- a direct write that succeeds; one that fails is rolled back
pub data Write (db after : Tables) : Type 0 where
  area_created :
      (env : Env) (title : String) (area : Area)
      → create_area env title db ≡ ok (area, after)
      → Write db after
  area_moved :
      (env : Env) (id : AreaId) (to : AreaStatus) (area : Area)
      → transition_area env id to db ≡ ok (area, after)
      → Write db after
  direction_created :
      (env : Env) (title window : String) (area_id : Option AreaId) (direction : Direction)
      → create_direction env title window area_id db ≡ ok (direction, after)
      → Write db after
  rhythm_created :
      (env : Env) (allocations : List Alloc) (rhythm : Rhythm)
      → create_rhythm env allocations db ≡ ok (rhythm, after)
      → Write db after
  week_moved :
      (env : Env) (id : WeekId) (to : WeekStatus) (week : Week)
      → transition_week env id to db ≡ ok (week, after)
      → Write db after
  block_created :
      (env : Env) (direction_id : Option DirectionId) (task_id : Option TaskId) (minutes : ℕ)
      (block : ScheduleBlock)
      → create_block env direction_id task_id minutes db ≡ ok (block, after)
      → Write db after
  block_moved :
      (env : Env) (id : String) (to : ScheduleBlockStatus) (block : ScheduleBlock)
      → transition_block env id to db ≡ ok (block, after)
      → Write db after
  task_created :
      (env : Env) (title : String) (direction_id : Option DirectionId)
      (parent_task_id : Option TaskId) (kind : TaskKind) (energy : Energy) (est : Option ℕ)
      (task : Task)
      → create_task env title direction_id parent_task_id kind energy est db ≡ ok (task, after)
      → Write db after
  task_moved :
      (env : Env) (id : TaskId) (to : TaskStatus) (task : Task)
      → transition_task env id to db ≡ ok (task, after)
      → Write db after

result :
    {A : Type 0} {a : A} {db after : Tables} {r : StoreResult (A × Tables)}
    → Writes db r
    → r ≡ ok (a, after)
    → IsWrite db after
result {db = db} w e = Ends-ok (subst (Ends (λ got. IsWrite db got.1) Any) e w)

write-IsWrite : (db after : Tables) → Write db after → IsWrite db after
write-IsWrite db after (area_created env title area h) = result (create_area-Writes env title db) h
write-IsWrite db after (area_moved env id to area h) =
    result (transition_area-Writes env id to db) h
write-IsWrite db after (direction_created env title window a direction h) =
    result (create_direction-Writes env title window a db) h
write-IsWrite db after (rhythm_created env allocations rhythm h) =
    result (create_rhythm-Writes env allocations db) h
write-IsWrite db after (week_moved env id to week h) =
    result (transition_week-Writes env id to db) h
write-IsWrite db after (block_created env d t minutes block h) =
    result (create_block-Writes env d t minutes db) h
write-IsWrite db after (block_moved env id to block h) =
    result (transition_block-Writes env id to db) h
write-IsWrite db after (task_created env title d parent kind energy est task h) =
    result (create_task-Writes env title d parent kind energy est db) h
write-IsWrite db after (task_moved env id to task h) =
    result (transition_task-Writes env id to db) h

-- A direct write of an area, direction, rhythm, week, block or task that succeeds appends exactly one
-- event to the log, after the events that were there, and changes no proposal.
pub direct_write_logs_once : (db after : Tables) → Write db after → IsLogged db after
direct_write_logs_once db after w = (write-IsWrite db after w).logged

module _ (body_sha256 : String → String) (ops_json : List Sin90Op → String) where
  -- the operations on proposals and the direct writes, in any order
  pub data History (db : Tables) : Tables → Type 0 where
    unwritten : History db db
    proposed :
        {mid after : Tables}
        → History db mid
        → Step body_sha256 ops_json mid after
        → History db after
    written : {mid after : Tables} → History db mid → Write mid after → History db after

  -- If each task has the columns of its provenance exactly when it is in the triage direction, and each
  -- task that another was carried over from is closed as carried over, then that is so after any
  -- sequence, in any order, of operations on proposals and direct writes.
  pub writings_keep_tasks :
      (db after : Tables)
      → History db after
      → IsTaskSound body_sha256 ops_json db
      → IsTaskSound body_sha256 ops_json after
  writings_keep_tasks db after unwritten h = h
  writings_keep_tasks db after (proposed {mid = mid} rest step) h =
      proposals_keep_tasks body_sha256 ops_json mid after (then_ none_yet step)
        (writings_keep_tasks db mid rest h)
  writings_keep_tasks db after (written {mid = mid} rest w) h =
      let before = writings_keep_tasks db mid rest h in
      let next = (write-IsWrite mid after w).sound (before.stamped, before.closed) in
      record { stamped = next.0; closed = next.1 }
