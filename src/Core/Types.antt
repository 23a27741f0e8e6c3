-- ===== src/Core/Types.antt =====
-- src/core/types.rs: the status enums, the value enums and the entities. Ids, titles and
-- timestamps are texts, and a `u32` is a number.
use sin.Prelude.{ℕ, String, Option, List}

abbrev pub DirectionId : Type 0
DirectionId = String

abbrev pub TaskId : Type 0
TaskId = String

abbrev pub WeekId : Type 0
WeekId = String

abbrev pub RhythmId : Type 0
RhythmId = String

abbrev pub ReviewId : Type 0
ReviewId = String

abbrev pub AreaId : Type 0
AreaId = String

abbrev pub RoutineId : Type 0
RoutineId = String

abbrev pub triage_direction_id : DirectionId
triage_direction_id = "sin90-triage"

pub data AreaStatus : Type 0 where
  active archived : AreaStatus

pub data DirectionStatus : Type 0 where
  draft active paused achieved abandoned : DirectionStatus

pub data TaskStatus : Type 0 where
  backlog planned in_progress done dropped carried_over : TaskStatus

pub data WeekStatus : Type 0 where
  planning active reviewing closed : WeekStatus

pub data ScheduleBlockStatus : Type 0 where
  planned started completed skipped : ScheduleBlockStatus

pub data RhythmStatus : Type 0 where
  active adjusted retired : RhythmStatus

pub data ReviewStatus : Type 0 where
  draft finalized : ReviewStatus

pub data RoutineStatus : Type 0 where
  active paused retired : RoutineStatus

pub data RoutineKind : Type 0 where
  deep_work exercise review read other : RoutineKind

pub data ProposalStatus : Type 0 where
  pending applying applied rejected : ProposalStatus

pub data TaskKind : Type 0 where
  deep_work admin meeting learning other : TaskKind

pub data Energy : Type 0 where
  high mid low : Energy

pub record Alloc : Type 0 where
  pub direction_id : DirectionId
  pub pct : ℕ

pub record Routine : Type 0 where
  pub id : RoutineId
  pub area_id : Option AreaId
  pub direction_id : Option DirectionId
  pub title : String
  pub kind : RoutineKind
  pub cron : String
  pub tz : String
  pub target_count : Option ℕ
  pub target_minutes : Option ℕ
  pub status : RoutineStatus
  pub created_at : String
  pub updated_at : String

pub record NewRoutine : Type 0 where
  pub title : String
  pub area_id : Option AreaId
  pub direction_id : Option DirectionId
  pub kind : RoutineKind
  pub cron : String
  pub tz : Option String
  pub target_count : Option ℕ
  pub target_minutes : Option ℕ

-- The two double `Option`s tell "absent" (`none`), "cleared" (`some none`) and "set" apart.
pub record RoutinePatch : Type 0 where
  pub title : Option String
  pub cron : Option String
  pub tz : Option String
  pub target_count : Option (Option ℕ)
  pub target_minutes : Option (Option ℕ)

pub data FireTrigger : Type 0 where
  tick run_now : FireTrigger

pub data ReviewKind : Type 0 where
  daily weekly rhythm : ReviewKind

pub record Area : Type 0 where
  pub id : AreaId
  pub title : String
  pub slug : String
  pub status : AreaStatus
  pub sort_key : ℕ
  pub created_at : String
  pub updated_at : String

pub record Direction : Type 0 where
  pub id : DirectionId
  pub area_id : Option AreaId
  pub title : String
  pub status : DirectionStatus
  pub target_window : String
  pub created_at : String
  pub updated_at : String

pub record Task : Type 0 where
  pub id : TaskId
  pub direction_id : Option DirectionId
  pub week_id : Option WeekId
  pub parent_task_id : Option TaskId
  pub title : String
  pub status : TaskStatus
  pub kind : TaskKind
  pub energy : Energy
  pub est_minutes : Option ℕ
  pub carried_from : Option TaskId
  pub created_at : String
  pub updated_at : String

pub record Week : Type 0 where
  pub id : WeekId
  pub status : WeekStatus
  pub iso_week : String
  pub created_at : String
  pub updated_at : String

pub record Rhythm : Type 0 where
  pub id : RhythmId
  pub status : RhythmStatus
  pub allocations : List Alloc
  pub created_at : String
  pub updated_at : String

pub record Review : Type 0 where
  pub id : ReviewId
  pub kind : ReviewKind
  pub status : ReviewStatus
  pub week_id : Option WeekId
  pub period : String
  pub body : String
  pub body_ref : Option String
  pub created_at : String
  pub updated_at : String

pub record ScheduleBlock : Type 0 where
  pub id : String
  pub direction_id : Option DirectionId
  pub task_id : Option TaskId
  pub status : ScheduleBlockStatus
  pub planned_minutes : ℕ
  pub created_at : String
  pub updated_at : String
