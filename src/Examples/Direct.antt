-- ===== src/Examples/Direct.antt =====
-- src/store/repo.rs: the direct writes of a subtask, of a move of it, of a second subtask below it, and
-- of the end of a block.
use Prim.Native.String
use sin.Prelude.Decimal.{to_decimal}
use sin.Prelude.{◌≡◌, refl, none, some, [], ◌∷◌}
use sin.Store.Direct.Attention.{WeekAttention, pos, negsuc, week_attention}
use sin.Store.Direct.Credits.{week_attention-transition_block}
use sin.Core.Types.{ScheduleBlock, ScheduleBlockStatus, Task, TaskStatus, TaskKind, Energy}
use sin.Store.Errors.{ok, err, conflict}
use sin.Store.Tables.{Tables, Env}
use sin.Store.Tables.Statements.{event_id}
use sin.Store.Proposals.Final.{IsTaskSound}
use sin.Store.Direct.{create_task, transition_task, transition_block}
use sin.Store.Direct.Logged.{IsLogged}
use sin.Store.Direct.Writes.{
  Write, task_created, task_moved, unwritten, written, direct_write_logs_once, writings_keep_tasks,
}
use sin.Examples.Store.{digest, no_json, task, store, sound, value_or}

abbrev later : Env
later = record {
  ulid = λ n. String.◌++◌ "v" (to_decimal n);
  now_iso8601 = λ n. "2026-10-02T00:00:00Z";
}

abbrev moved_by : Env
moved_by = record {
  ulid = λ n. String.◌++◌ "w" (to_decimal n);
  now_iso8601 = λ n. "2026-10-03T00:00:00Z";
}

abbrev subtask : Task × Tables
subtask =
    value_or (task.task, store)
      (create_task later "Outline" none (some "t1") TaskKind.other Energy.mid none store)

creates :
    create_task later "Outline" none (some "t1") TaskKind.other Energy.mid none store
    ≡ ok (subtask.0, subtask.1)
unfolding create_task sin.Store.Rows.select sin.Store.Tables.Statements.insert_task to_decimal
    sin.Store.Tables.Statements.append_event
creates = refl

created : Write store subtask.1
created = task_created later "Outline" none (some "t1") TaskKind.other Energy.mid none _ creates

direct_write_logs_once_example : IsLogged store subtask.1
direct_write_logs_once_example = direct_write_logs_once store subtask.1 created

abbrev moved : Task × Tables
moved = value_or (task.task, store) (transition_task moved_by "t1" TaskStatus.in_progress subtask.1)

moves : transition_task moved_by "t1" TaskStatus.in_progress subtask.1 ≡ ok (moved.0, moved.1)
unfolding transition_task sin.Store.Rows.select create_task sin.Store.Tables.Statements.insert_task
    to_decimal sin.Store.Tables.Statements.append_event
    sin.Store.Tables.Statements.require_task_week_open sin.Core.Transitions.week_is_open
    sin.Core.Transitions.check_task_transition sin.Core.Transitions.task_transition_allowed
moves = refl

-- a subtask has no subtasks
nests_once :
    create_task later "Draft" none (some "v0") TaskKind.other Energy.mid none subtask.1
    ≡ err (conflict "task" "v0")
unfolding create_task sin.Store.Rows.select sin.Store.Tables.Statements.insert_task to_decimal
    sin.Store.Tables.Statements.append_event
nests_once = refl

writings_keep_tasks_example : IsTaskSound digest no_json moved.1
writings_keep_tasks_example =
    writings_keep_tasks digest no_json store moved.1
      (written (written unwritten created)
        (task_moved moved_by "t1" TaskStatus.in_progress moved.0 moves))
      sound

abbrev block : ScheduleBlock
block = record {
  id = "b1";
  direction_id = none;
  task_id = some "t1";
  status = ScheduleBlockStatus.started;
  planned_minutes = 45;
  created_at = "";
  updated_at = "";
}

abbrev scheduled : Tables
scheduled = record store { blocks = block ∷ [] }

abbrev finished : ScheduleBlock × Tables
finished =
    value_or (block, scheduled)
      (transition_block later "b1" ScheduleBlockStatus.completed scheduled)

finishes :
    transition_block later "b1" ScheduleBlockStatus.completed scheduled
    ≡ ok (finished.0, finished.1)
unfolding transition_block sin.Store.Rows.select
    sin.Core.Transitions.check_schedule_block_transition
    sin.Core.Transitions.schedule_block_transition_allowed sin.Store.Tables.Statements.append_event
finishes = refl

abbrev planned_only : WeekAttention
planned_only = record {
  week_id = "w1";
  planned_min = 45;
  actual_min = 0;
  deviation_min = negsuc 44;
}

attends : week_attention "w1" scheduled ≡ ok planned_only
unfolding week_attention sin.Store.Rows.select sin.Store.Direct.Attention.planned_sum
    sin.Store.Direct.Attention.actual_sum
attends = refl

week_attention-transition_block_example :
    week_attention "w1" finished.1
    ≡ ok (record { week_id = "w1"; planned_min = 45; actual_min = 45; deviation_min = pos 0 })
unfolding transition_block sin.Store.Rows.select
    sin.Core.Transitions.check_schedule_block_transition
    sin.Core.Transitions.schedule_block_transition_allowed sin.Store.Tables.Statements.append_event
week_attention-transition_block_example =
    week_attention-transition_block later "w1" "b1" ScheduleBlockStatus.completed scheduled
      finished.1 finished.0 planned_only finishes attends
