-- ===== src/Store/ApplyOp.antt =====
-- src/store/repo.rs: `apply_op`, an arm of whose `match` is a function of its own, and the loop of
-- `apply_proposal` over it.
pub mod Create
pub mod Change
pub mod Effects
pub mod Agrees
pub mod Views
pub mod Refusals
pub mod Arms
pub mod Refines
pub mod Keeps
pub mod Kept
use sin.Prelude.{
  ℕ, zero, suc, String, Bool, true, false, not, ◌||◌, Option, none, some, List, [], ◌∷◌, ◌++◌, ◌==◌,
  if◌then◌else◌, map,
}
use sin.Core.Types.{
  DirectionId, TaskId, WeekId, RhythmId, ReviewId, Area, Direction, Task, Rhythm, Review, Alloc,
  AreaStatus, DirectionStatus, TaskStatus, RhythmStatus, ReviewStatus, TaskKind, Energy,
  triage_direction_id,
}
use sin.Core.Transitions.{check_task_transition, check_rhythm_transition}
use sin.Core.Proposal.Errors.{
  Sin90Op, create_area, create_task, create_direction, transition_task, create_tasks, reorder_tasks,
  adjust_rhythm, carry_over_task, assign_task_direction, draft_review_body, NewTask,
}
use sin.Core.Proposal.Validate.{is_draft, unwrap_or}
use sin.Store.Json.{Value, Items, str, num, arr, obj, field, end, cons, nil, opt_str, strings}
use sin.Store.Errors.{
  not_found, conflict, same_week_carry, foreign_key_failed, check_failed, StoreResult, ok, err,
  ◌>>=◌, ◌>>◌, fail_if, found, transition_checked,
}
use sin.Store.Rows.{is_some, select, update}
use sin.Store.Slug.{allocate_area_slug}
use sin.Store.Tables.{
  TaskRow, Tables, Env, Tx, ClassifyEval, task_key, find_task, find_direction, find_rhythm,
  find_review, is_known, triage_via_allowed,
}
use sin.Store.ApplyOp.Create.{
  apply_create_area, apply_create_task, apply_create_direction, apply_create_tasks,
}
use sin.Store.ApplyOp.Change.{
  apply_transition, apply_reorder, apply_adjust, apply_carry_over, apply_assign, apply_draft,
}
use sin.Store.Tables.Statements.{
  same_text, slug_of, insert_area, insert_direction, insert_task, event, log_event, drew, wrote,
  parked, stamp, read_task_status, read_rhythm_status, require_task_week_open, set_status,
  with_status, task_status_wire, rhythm_status_wire,
}

module _ (env : Env) (capability_source : String) where
  unfoldable pub apply_arm : (now : String) → Sin90Op → Tx → StoreResult Tx
  apply_arm now (create_area title) tx = apply_create_area env now title tx
  apply_arm now (create_task title direction_id parent_task_id kind energy est_minutes) tx =
      apply_create_task env now title direction_id parent_task_id (unwrap_or kind TaskKind.other)
        (unwrap_or energy Energy.mid) est_minutes tx
  apply_arm now (create_direction title target_window) tx =
      apply_create_direction env now title target_window tx
  apply_arm now (transition_task task_id to) tx = apply_transition env now task_id to tx
  apply_arm now (create_tasks week_id tasks) tx = apply_create_tasks env now week_id 0 tasks tx
  apply_arm now (reorder_tasks week_id order) tx = apply_reorder env now week_id order tx
  apply_arm now (adjust_rhythm rhythm_id new_alloc) tx = apply_adjust env now rhythm_id new_alloc tx
  apply_arm now (carry_over_task task_id to_week) tx = apply_carry_over env now task_id to_week tx
  apply_arm now (assign_task_direction task_id direction_id) tx =
      apply_assign env now capability_source task_id direction_id tx
  apply_arm now (draft_review_body review_id base body) tx = apply_draft env now review_id body tx

  unfoldable pub apply_op : Sin90Op → Tx → StoreResult Tx
  apply_op op tx = apply_arm (env.now_iso8601 tx.calls) op (record tx { calls = suc tx.calls })

  -- the loop `for op in &ops`
  unfoldable pub apply_ops : List Sin90Op → Tx → StoreResult Tx
  apply_ops [] tx = ok tx
  apply_ops (op ∷ ops) tx = apply_op op tx >>= apply_ops ops
