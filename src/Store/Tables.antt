-- ===== src/Store/Tables.antt =====
-- src/store/migrations and src/store/repo.rs: the tables that proposals read and write, and a
-- transaction on them.
pub mod Statements
use sin.Prelude.{
  ℕ, zero, suc, String, Bool, true, false, not, ◌&&◌, ◌||◌, Option, none, some, List, [], ◌∷◌, ◌++◌,
  ◌==◌, if◌then◌else◌, map,
}
use sin.Prelude.Text.{contains}
use sin.Core.Types.{
  AreaId, DirectionId, TaskId, ReviewId, Area, Direction, Task, Week, Rhythm, Review, ScheduleBlock,
  TaskStatus, RhythmStatus, ProposalStatus, triage_direction_id,
}
use sin.Core.Transitions.{week_is_open}
use sin.Core.Proposal.Errors.{Sin90Op, ProposalSource}
use sin.Store.Json.{Value}
use sin.Store.Errors.{
  not_found, week_not_open, unique_failed, foreign_key_failed, check_failed, StoreResult, ok, err,
  ◌>>=◌, ◌>>◌, fail_if, found, Event,
}
use sin.Store.Rows.{is_some, column, select, update}

-- a row of sin90_tasks: the columns of a `Task`, and three more
pub record TaskRow : Type 0 where
  pub task : Task
  pub sort_key : ℕ
  pub triage_via : Option String
  pub triage_entered_at : Option String

pub record AppliedProposal : Type 0 where
  pub proposal_id : String
  pub event_ids : List String

pub record ProposalRow : Type 0 where
  pub id : String
  pub status : ProposalStatus
  pub source : ProposalSource
  pub ops : List Sin90Op
  pub rationale : Option String
  pub result : Option AppliedProposal
  pub created_at : String
  pub decided_at : Option String

pub record Rejection : Type 0 where
  pub id : String
  pub proposal_id : String
  pub capability_source : String
  pub proposal_source : ProposalSource
  pub ops_summary : String
  pub rationale : Option String
  pub reason : Option String
  pub proposed_at : String
  pub rejected_at : String

pub record AiCall : Type 0 where
  pub task_kind : String
  pub proposal_id : Option String
  pub is_ok : Bool

pub record ClassifyEval : Type 0 where
  pub task_id : TaskId
  pub evaluated_at : String

-- The rows of each table in rowid order, so that the latest event is the last.
pub record Tables : Type 0 where
  pub areas : List Area
  pub directions : List Direction
  pub weeks : List Week
  pub rhythms : List Rhythm
  pub tasks : List TaskRow
  pub blocks : List ScheduleBlock
  pub reviews : List Review
  pub events : List Event
  pub proposals : List ProposalRow
  pub rejections : List Rejection
  pub ai_calls : List AiCall
  pub classify_evals : List ClassifyEval

-- what the calls of `ulid()` and of `now_iso8601()` return in the course of one operation
pub record Env : Type 0 where
  pub ulid : ℕ → String
  pub now_iso8601 : ℕ → String

-- a transaction: the tables as it sees them, how many calls were made, and `event_ids` of an apply
pub record Tx : Type 0 where
  pub tables : Tables
  pub calls : ℕ
  pub event_ids : List String

abbrev pub task_key : TaskRow → TaskId
task_key row = row.task.id

abbrev pub find_task : TaskId → Tables → Option TaskRow
find_task id db = select task_key id db.tasks

abbrev pub find_direction : DirectionId → Tables → Option Direction
find_direction id db = select Direction.id id db.directions

abbrev pub find_week : String → Tables → Option Week
find_week id db = select Week.id id db.weeks

abbrev pub find_rhythm : String → Tables → Option Rhythm
find_rhythm id db = select Rhythm.id id db.rhythms

abbrev pub find_review : ReviewId → Tables → Option Review
find_review id db = select Review.id id db.reviews

abbrev pub find_proposal : String → Tables → Option ProposalRow
find_proposal id db = select ProposalRow.id id db.proposals

-- the references of a row: nothing, or a row that is there
abbrev pub is_known : {A : Type 0} → (A → String) → Option String → List A → Bool
is_known key none rows = true
is_known key (some id) rows = is_some (select key id rows)

-- `CHECK (triage_via IN ('classify', 'direct'))`
abbrev pub triage_via_allowed : Option String → Bool
triage_via_allowed none = true
triage_via_allowed (some via) = via == "classify" || via == "direct"
