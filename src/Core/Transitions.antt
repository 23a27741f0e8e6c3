-- ===== src/Core/Transitions.antt =====
-- src/core/transitions.rs: the legal status transitions. The `matches!` tables become functions by
-- clauses with a catch-all, and `Result<(), TransitionError>` is `Checked`.
pub mod Graph
use sin.Prelude.{Bool, true, false, if◌then◌else◌}
use sin.Core.Types.{
  AreaStatus, DirectionStatus, TaskStatus, WeekStatus, ScheduleBlockStatus, RhythmStatus,
  ReviewStatus, RoutineStatus, ProposalStatus,
}

pub data TransitionError : Type 0 where
  area : AreaStatus → AreaStatus → TransitionError
  direction : DirectionStatus → DirectionStatus → TransitionError
  proposal : ProposalStatus → ProposalStatus → TransitionError
  task : TaskStatus → TaskStatus → TransitionError
  week : WeekStatus → WeekStatus → TransitionError
  schedule_block : ScheduleBlockStatus → ScheduleBlockStatus → TransitionError
  rhythm : RhythmStatus → RhythmStatus → TransitionError
  review : ReviewStatus → ReviewStatus → TransitionError
  routine : RoutineStatus → RoutineStatus → TransitionError

pub data Checked : Type 0 where
  ok : Checked
  err : TransitionError → Checked

unfoldable pub area_transition_allowed : AreaStatus → AreaStatus → Bool
area_transition_allowed AreaStatus.active AreaStatus.archived = true
area_transition_allowed AreaStatus.archived AreaStatus.active = true
area_transition_allowed _ _ = false

unfoldable pub check_area_transition : AreaStatus → AreaStatus → Checked
check_area_transition from to =
    if area_transition_allowed from to then ok else err (TransitionError.area from to)

unfoldable pub direction_transition_allowed : DirectionStatus → DirectionStatus → Bool
direction_transition_allowed DirectionStatus.draft DirectionStatus.active = true
direction_transition_allowed DirectionStatus.draft DirectionStatus.abandoned = true
direction_transition_allowed DirectionStatus.active DirectionStatus.achieved = true
direction_transition_allowed DirectionStatus.active DirectionStatus.abandoned = true
direction_transition_allowed DirectionStatus.active DirectionStatus.paused = true
direction_transition_allowed DirectionStatus.paused DirectionStatus.active = true
direction_transition_allowed DirectionStatus.paused DirectionStatus.abandoned = true
direction_transition_allowed _ _ = false

unfoldable pub check_direction_transition : DirectionStatus → DirectionStatus → Checked
check_direction_transition from to =
    if direction_transition_allowed from to then ok else err (TransitionError.direction from to)

unfoldable pub direction_is_terminal : DirectionStatus → Bool
direction_is_terminal DirectionStatus.achieved = true
direction_is_terminal DirectionStatus.abandoned = true
direction_is_terminal _ = false

unfoldable pub task_transition_allowed : TaskStatus → TaskStatus → Bool
task_transition_allowed TaskStatus.backlog TaskStatus.planned = true
task_transition_allowed TaskStatus.backlog TaskStatus.dropped = true
task_transition_allowed TaskStatus.planned TaskStatus.in_progress = true
task_transition_allowed TaskStatus.planned TaskStatus.dropped = true
task_transition_allowed TaskStatus.planned TaskStatus.carried_over = true
task_transition_allowed TaskStatus.in_progress TaskStatus.done = true
task_transition_allowed TaskStatus.in_progress TaskStatus.dropped = true
task_transition_allowed TaskStatus.in_progress TaskStatus.carried_over = true
task_transition_allowed _ _ = false

unfoldable pub check_task_transition : TaskStatus → TaskStatus → Checked
check_task_transition from to =
    if task_transition_allowed from to then ok else err (TransitionError.task from to)

unfoldable pub task_is_terminal : TaskStatus → Bool
task_is_terminal TaskStatus.done = true
task_is_terminal TaskStatus.dropped = true
task_is_terminal TaskStatus.carried_over = true
task_is_terminal _ = false

unfoldable pub week_transition_allowed : WeekStatus → WeekStatus → Bool
week_transition_allowed WeekStatus.planning WeekStatus.active = true
week_transition_allowed WeekStatus.active WeekStatus.reviewing = true
week_transition_allowed WeekStatus.reviewing WeekStatus.closed = true
week_transition_allowed _ _ = false

unfoldable pub check_week_transition : WeekStatus → WeekStatus → Checked
check_week_transition from to =
    if week_transition_allowed from to then ok else err (TransitionError.week from to)

unfoldable pub week_is_terminal : WeekStatus → Bool
week_is_terminal WeekStatus.closed = true
week_is_terminal _ = false

unfoldable pub week_is_open : WeekStatus → Bool
week_is_open WeekStatus.planning = true
week_is_open WeekStatus.active = true
week_is_open _ = false

unfoldable pub schedule_block_transition_allowed : ScheduleBlockStatus → ScheduleBlockStatus → Bool
schedule_block_transition_allowed ScheduleBlockStatus.planned ScheduleBlockStatus.started = true
schedule_block_transition_allowed ScheduleBlockStatus.planned ScheduleBlockStatus.skipped = true
schedule_block_transition_allowed ScheduleBlockStatus.started ScheduleBlockStatus.completed = true
schedule_block_transition_allowed ScheduleBlockStatus.started ScheduleBlockStatus.skipped = true
schedule_block_transition_allowed _ _ = false

unfoldable pub check_schedule_block_transition : ScheduleBlockStatus → ScheduleBlockStatus → Checked
check_schedule_block_transition from to =
    if schedule_block_transition_allowed from to
    then ok
    else err (TransitionError.schedule_block from to)

unfoldable pub schedule_block_is_terminal : ScheduleBlockStatus → Bool
schedule_block_is_terminal ScheduleBlockStatus.completed = true
schedule_block_is_terminal ScheduleBlockStatus.skipped = true
schedule_block_is_terminal _ = false

unfoldable pub rhythm_transition_allowed : RhythmStatus → RhythmStatus → Bool
rhythm_transition_allowed RhythmStatus.active RhythmStatus.adjusted = true
rhythm_transition_allowed RhythmStatus.active RhythmStatus.retired = true
rhythm_transition_allowed RhythmStatus.adjusted RhythmStatus.adjusted = true
rhythm_transition_allowed RhythmStatus.adjusted RhythmStatus.retired = true
rhythm_transition_allowed _ _ = false

unfoldable pub check_rhythm_transition : RhythmStatus → RhythmStatus → Checked
check_rhythm_transition from to =
    if rhythm_transition_allowed from to then ok else err (TransitionError.rhythm from to)

unfoldable pub rhythm_is_terminal : RhythmStatus → Bool
rhythm_is_terminal RhythmStatus.retired = true
rhythm_is_terminal _ = false

unfoldable pub review_transition_allowed : ReviewStatus → ReviewStatus → Bool
review_transition_allowed ReviewStatus.draft ReviewStatus.finalized = true
review_transition_allowed _ _ = false

unfoldable pub check_review_transition : ReviewStatus → ReviewStatus → Checked
check_review_transition from to =
    if review_transition_allowed from to then ok else err (TransitionError.review from to)

unfoldable pub review_is_terminal : ReviewStatus → Bool
review_is_terminal ReviewStatus.finalized = true
review_is_terminal _ = false

unfoldable pub routine_transition_allowed : RoutineStatus → RoutineStatus → Bool
routine_transition_allowed RoutineStatus.active RoutineStatus.paused = true
routine_transition_allowed RoutineStatus.paused RoutineStatus.active = true
routine_transition_allowed RoutineStatus.active RoutineStatus.retired = true
routine_transition_allowed RoutineStatus.paused RoutineStatus.retired = true
routine_transition_allowed _ _ = false

unfoldable pub check_routine_transition : RoutineStatus → RoutineStatus → Checked
check_routine_transition from to =
    if routine_transition_allowed from to then ok else err (TransitionError.routine from to)

unfoldable pub routine_is_terminal : RoutineStatus → Bool
routine_is_terminal RoutineStatus.retired = true
routine_is_terminal _ = false

unfoldable pub proposal_transition_allowed : ProposalStatus → ProposalStatus → Bool
proposal_transition_allowed ProposalStatus.pending ProposalStatus.applying = true
proposal_transition_allowed ProposalStatus.pending ProposalStatus.rejected = true
proposal_transition_allowed ProposalStatus.applying ProposalStatus.applied = true
proposal_transition_allowed ProposalStatus.applying ProposalStatus.rejected = true
proposal_transition_allowed _ _ = false

unfoldable pub check_proposal_transition : ProposalStatus → ProposalStatus → Checked
check_proposal_transition from to =
    if proposal_transition_allowed from to then ok else err (TransitionError.proposal from to)

unfoldable pub proposal_is_terminal : ProposalStatus → Bool
proposal_is_terminal ProposalStatus.applied = true
proposal_is_terminal ProposalStatus.rejected = true
proposal_is_terminal _ = false
