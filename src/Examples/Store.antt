-- ===== src/Examples/Store.antt =====
-- A small database for src/store/repo.rs: a proposal that is applied, again and rejected, and slugs.
use Prim.Native.String
use sin.Prelude.{
  ℕ, String, ◌≡◌, refl, true, false, Option, none, some, List, [], ◌∷◌, ◌++◌, ◌≤◌, ◌<◌, length, map,
  All,
}
use sin.Prelude.Text.{contains}
use sin.Prelude.Decimal.{to_decimal}
use sin.Core.Types.{
  Area, AreaStatus, Week, WeekStatus, TaskStatus, TaskKind, Energy, ProposalStatus,
}
use sin.Core.Transitions.{proposal_is_terminal}
use sin.Core.Proposal.Errors.{
  Sin90Op, Sin90Proposal, transition_task, create_area, reorder_tasks, ProposalSource,
}
use sin.Core.Proposal.Errors
use sin.Core.Proposal.Working.{Working, new, set_task}
use sin.Core.Proposal.Validate.{validate, validate_ops}
use sin.Store.Errors.{Event, StoreResult, ok, err, conflict, not_found, Ends}
use sin.Store.Tables.{Tables, TaskRow, ProposalRow, AppliedProposal, Env, Tx, find_proposal}
use sin.Store.Tables.Statements.{event_id}
use sin.Store.Slug.{slugify, allocate_area_slug}
use sin.Store.Slug.Shape.{words, slugify-words}
use sin.Store.Slug.Allocate.{candidate, allocate_area_slug_first_free}
use sin.Store.ApplyOp.{apply_ops}
use sin.Store.ApplyOp.Agrees.{Agrees, new-Agrees}
use sin.Store.ApplyOp.Refines.{Passes, Stops, apply_ops_refines}
use sin.Store.Tables.Statements.{begin}
use sin.Store.Proposals.{
  ApplyOutcome, RejectOutcome, summarize_ops, apply_proposal, reject_proposal, submit_proposal,
}
use sin.Store.Proposals.Snapshot.{live_ctx, snapshot_ctx, build_snapshot}
use sin.Store.Proposals.Loaded.{validate-build_snapshot}
use sin.Store.Proposals.Applied.{applying, claimed}
use sin.Store.Proposals.Once.{apply_proposal_once, receipt_lists_events}
use sin.Store.Proposals.Pending.{NotApplied, apply_pending_ends}
use sin.Store.Proposals.Steps.{Steps, submitted, applied, none_yet, then_}
use sin.Store.Proposals.Final.{IsTaskSound, decided_is_final, proposals_keep_tasks}

abbrev env : Env
env = record {
  ulid = λ n. String.◌++◌ "u" (to_decimal n);
  now_iso8601 = λ n. "2026-10-01T00:00:00Z";
}

abbrev pub digest : String → String
digest s = s

abbrev pub no_json : List Sin90Op → String
no_json ops = ""

abbrev work : Area
work = record {
  id = "a1";
  title = "Work";
  slug = "work";
  status = AreaStatus.active;
  sort_key = 0;
  created_at = "";
  updated_at = "";
}

abbrev week : Week
week = record {
  id = "w1";
  status = WeekStatus.active;
  iso_week = "2026-W40";
  created_at = "";
  updated_at = "";
}

abbrev pub task : TaskRow
task = record {
  task = record {
    id = "t1";
    direction_id = none;
    week_id = some "w1";
    parent_task_id = none;
    title = "Write";
    status = TaskStatus.planned;
    kind = TaskKind.other;
    energy = Energy.mid;
    est_minutes = none;
    carried_from = none;
    created_at = "";
    updated_at = "";
  };
  sort_key = 0;
  triage_via = none;
  triage_entered_at = none;
}

abbrev ops : List Sin90Op
ops = transition_task "t1" TaskStatus.in_progress ∷ create_area "Work" ∷ []

abbrev pending : ProposalRow
pending = record {
  id = "p1";
  status = ProposalStatus.pending;
  source = ProposalSource.executive;
  ops = ops;
  rationale = none;
  result = none;
  created_at = "";
  decided_at = none;
}

abbrev pub store : Tables
store = record {
  areas = work ∷ [];
  directions = [];
  weeks = week ∷ [];
  rhythms = [];
  tasks = task ∷ [];
  blocks = [];
  reviews = [];
  events = [];
  proposals = pending ∷ [];
  rejections = [];
  ai_calls = [];
  classify_evals = [];
}

-- the value of a result, or another where there is none
abbrev pub value_or : {A : Type 0} → A → StoreResult A → A
value_or other (ok a) = a
value_or other (err e) = other

abbrev value_of : {A : Type 0} → A → Option A → A
value_of other none = other
value_of other (some a) = a

abbrev no_outcome : ApplyOutcome
no_outcome = record { receipt = record { proposal_id = ""; event_ids = [] }; applied_now = false }

abbrev run : ApplyOutcome × Tables
run = value_or (no_outcome, store) (apply_proposal digest env "p1" store)

applies : apply_proposal digest env "p1" store ≡ ok (run.0, run.1)
unfolding apply_proposal sin.Store.Rows.select sin.Store.Rows.update
    sin.Store.Proposals.apply_claimed validate validate_ops sin.Core.Proposal.Validate.validate_op
    sin.Core.Proposal.Validate.validate_transition sin.Core.Proposal.Validate.require_task
    sin.Core.Proposal.Working.task_status new snapshot_ctx build_snapshot
    sin.Store.Proposals.Snapshot.load_task sin.Core.Transitions.check_task_transition
    sin.Core.Transitions.task_transition_allowed sin.Core.Proposal.Validate.non_blank apply_ops
    sin.Store.ApplyOp.apply_op sin.Store.ApplyOp.apply_arm sin.Store.ApplyOp.Change.apply_transition
    sin.Store.ApplyOp.Create.apply_create_area allocate_area_slug
    sin.Store.Tables.Statements.log_event sin.Store.Tables.Statements.append_event
    sin.Store.Tables.Statements.insert_area sin.Store.Tables.Statements.read_task_status
    sin.Store.Tables.Statements.require_task_week_open sin.Core.Transitions.week_is_open
    sin.Store.Proposals.capability_of sin.Prelude.Ascii.lower_char
applies = refl

-- the receipt names the two events
receipt_is : run.0.receipt.event_ids ≡ "u1" ∷ "u4" ∷ []
unfolding apply_proposal sin.Store.Rows.select sin.Store.Rows.update
    sin.Store.Proposals.apply_claimed validate validate_ops sin.Core.Proposal.Validate.validate_op
    sin.Core.Proposal.Validate.validate_transition sin.Core.Proposal.Validate.require_task
    sin.Core.Proposal.Working.task_status new snapshot_ctx build_snapshot
    sin.Store.Proposals.Snapshot.load_task sin.Core.Transitions.check_task_transition
    sin.Core.Transitions.task_transition_allowed sin.Core.Proposal.Validate.non_blank apply_ops
    sin.Store.ApplyOp.apply_op sin.Store.ApplyOp.apply_arm sin.Store.ApplyOp.Change.apply_transition
    sin.Store.ApplyOp.Create.apply_create_area allocate_area_slug
    sin.Store.Tables.Statements.log_event sin.Store.Tables.Statements.append_event
    sin.Store.Tables.Statements.insert_area sin.Store.Tables.Statements.read_task_status
    sin.Store.Tables.Statements.require_task_week_open sin.Core.Transitions.week_is_open
    sin.Store.Proposals.capability_of sin.Prelude.Ascii.lower_char
receipt_is = refl

apply_proposal_once_example :
    ((later : Env)
      → apply_proposal digest later "p1" run.1
        ≡ ok (record { receipt = run.0.receipt; applied_now = false }, run.1))
    × ((later : Env) (reason : Option String)
        → reject_proposal later "p1" reason run.1 ≡ err (conflict "proposal" "p1"))
apply_proposal_once_example = apply_proposal_once digest "p1" env store run.0 run.1 applies

is_new : run.0.applied_now ≡ true
unfolding apply_proposal sin.Store.Rows.select sin.Store.Rows.update
    sin.Store.Proposals.apply_claimed validate validate_ops sin.Core.Proposal.Validate.validate_op
    sin.Core.Proposal.Validate.validate_transition sin.Core.Proposal.Validate.require_task
    sin.Core.Proposal.Working.task_status new snapshot_ctx build_snapshot
    sin.Store.Proposals.Snapshot.load_task sin.Core.Transitions.check_task_transition
    sin.Core.Transitions.task_transition_allowed sin.Core.Proposal.Validate.non_blank apply_ops
    sin.Store.ApplyOp.apply_op sin.Store.ApplyOp.apply_arm sin.Store.ApplyOp.Change.apply_transition
    sin.Store.ApplyOp.Create.apply_create_area allocate_area_slug
    sin.Store.Tables.Statements.log_event sin.Store.Tables.Statements.append_event
    sin.Store.Tables.Statements.insert_area sin.Store.Tables.Statements.read_task_status
    sin.Store.Tables.Statements.require_task_week_open sin.Core.Transitions.week_is_open
    sin.Store.Proposals.capability_of sin.Prelude.Ascii.lower_char
is_new = refl

receipt_lists_events_example :
    (appended : List Event) × (run.1.events ≡ store.events ++ appended)
    × (run.0.receipt.event_ids ≡ map event_id appended)
receipt_lists_events_example = receipt_lists_events digest "p1" env store run.0 run.1 applies is_new

apply_pending_ends_example :
    Ends
      (λ r.
        (r.0.applied_now ≡ true)
        × (validate digest "direct" (applying "p1" pending) (live_ctx digest store) ≡ Errors.ok tt)
        × Passes digest env "direct" ops (begin 0 (claimed "p1" store)))
      (NotApplied digest "p1" env store pending)
      (apply_proposal digest env "p1" store)
unfolding sin.Store.Rows.select sin.Store.Proposals.capability_of
apply_pending_ends_example = apply_pending_ends digest "p1" env store pending refl refl

-- a task that is not there is an error of an order
order_unknown :
    apply_ops env "direct" (reorder_tasks "w1" ("ghost" ∷ []) ∷ []) (begin 0 store)
    ≡ err (not_found "task" "ghost")
unfolding apply_ops sin.Store.ApplyOp.apply_op sin.Store.ApplyOp.apply_arm
    sin.Store.ApplyOp.Change.apply_reorder sin.Store.ApplyOp.Change.reorder_loop
    sin.Store.Rows.select
order_unknown = refl

abbrev viewed : Working
viewed = set_task (new (live_ctx digest store)) "t1" TaskStatus.in_progress

accepted : validate_ops digest "direct" ops (new (live_ctx digest store)) ≡ Errors.ok viewed
unfolding validate_ops sin.Core.Proposal.Validate.validate_op
    sin.Core.Proposal.Validate.validate_transition sin.Core.Proposal.Validate.require_task
    sin.Core.Proposal.Working.task_status new sin.Store.Rows.select
    sin.Core.Transitions.check_task_transition sin.Core.Transitions.task_transition_allowed
    sin.Core.Proposal.Validate.non_blank
accepted = refl

apply_ops_refines_example :
    Ends
      (λ last.
        Agrees viewed (live_ctx digest last.tables)
        × Passes digest env "direct" ops (begin 0 store))
      (Stops digest env "direct" ops (begin 0 store))
      (apply_ops env "direct" ops (begin 0 store))
apply_ops_refines_example =
    apply_ops_refines digest env "direct" ops (new (live_ctx digest store)) viewed (begin 0 store)
      (new-Agrees (live_ctx digest store)) accepted

validate-build_snapshot_example :
    validate digest "direct"
      (applying "p1" pending)
      (snapshot_ctx (build_snapshot digest store ops))
    ≡ validate digest "direct" (applying "p1" pending) (live_ctx digest store)
validate-build_snapshot_example =
    validate-build_snapshot digest store "direct" (applying "p1" pending)

abbrev decided_row : ProposalRow
decided_row = value_of pending (find_proposal "p1" run.1)

steps : Steps digest no_json store run.1
steps = then_ none_yet (applied env "p1" run.0 applies)

found_decided : find_proposal "p1" run.1 ≡ some decided_row
unfolding apply_proposal sin.Store.Rows.select sin.Store.Rows.update
    sin.Store.Proposals.apply_claimed validate validate_ops sin.Core.Proposal.Validate.validate_op
    sin.Core.Proposal.Validate.validate_transition sin.Core.Proposal.Validate.require_task
    sin.Core.Proposal.Working.task_status new snapshot_ctx build_snapshot
    sin.Store.Proposals.Snapshot.load_task sin.Core.Transitions.check_task_transition
    sin.Core.Transitions.task_transition_allowed sin.Core.Proposal.Validate.non_blank apply_ops
    sin.Store.ApplyOp.apply_op sin.Store.ApplyOp.apply_arm sin.Store.ApplyOp.Change.apply_transition
    sin.Store.ApplyOp.Create.apply_create_area allocate_area_slug
    sin.Store.Tables.Statements.log_event sin.Store.Tables.Statements.append_event
    sin.Store.Tables.Statements.insert_area sin.Store.Tables.Statements.read_task_status
    sin.Store.Tables.Statements.require_task_week_open sin.Core.Transitions.week_is_open
    sin.Store.Proposals.capability_of sin.Prelude.Ascii.lower_char
found_decided = refl

is_decided : proposal_is_terminal decided_row.status ≡ true
unfolding apply_proposal sin.Store.Rows.select sin.Store.Rows.update
    sin.Store.Proposals.apply_claimed validate validate_ops sin.Core.Proposal.Validate.validate_op
    sin.Core.Proposal.Validate.validate_transition sin.Core.Proposal.Validate.require_task
    sin.Core.Proposal.Working.task_status new snapshot_ctx build_snapshot
    sin.Store.Proposals.Snapshot.load_task sin.Core.Transitions.check_task_transition
    sin.Core.Transitions.task_transition_allowed sin.Core.Proposal.Validate.non_blank apply_ops
    sin.Store.ApplyOp.apply_op sin.Store.ApplyOp.apply_arm sin.Store.ApplyOp.Change.apply_transition
    sin.Store.ApplyOp.Create.apply_create_area allocate_area_slug
    sin.Store.Tables.Statements.log_event sin.Store.Tables.Statements.append_event
    sin.Store.Tables.Statements.insert_area sin.Store.Tables.Statements.read_task_status
    sin.Store.Tables.Statements.require_task_week_open sin.Core.Transitions.week_is_open
    sin.Store.Proposals.capability_of sin.Prelude.Ascii.lower_char proposal_is_terminal
is_decided = refl

-- what comes after the application: a submission of the same proposal
abbrev again : Sin90Proposal
again = applying "p1" pending

submits : submit_proposal digest no_json env again run.1 ≡ ok run.1
unfolding apply_proposal sin.Store.Rows.select sin.Store.Rows.update
    sin.Store.Proposals.apply_claimed validate validate_ops sin.Core.Proposal.Validate.validate_op
    sin.Core.Proposal.Validate.validate_transition sin.Core.Proposal.Validate.require_task
    sin.Core.Proposal.Working.task_status new snapshot_ctx build_snapshot
    sin.Store.Proposals.Snapshot.load_task sin.Core.Transitions.check_task_transition
    sin.Core.Transitions.task_transition_allowed sin.Core.Proposal.Validate.non_blank apply_ops
    sin.Store.ApplyOp.apply_op sin.Store.ApplyOp.apply_arm sin.Store.ApplyOp.Change.apply_transition
    sin.Store.ApplyOp.Create.apply_create_area allocate_area_slug
    sin.Store.Tables.Statements.log_event sin.Store.Tables.Statements.append_event
    sin.Store.Tables.Statements.insert_area sin.Store.Tables.Statements.read_task_status
    sin.Store.Tables.Statements.require_task_week_open sin.Core.Transitions.week_is_open
    sin.Store.Proposals.capability_of sin.Prelude.Ascii.lower_char submit_proposal
submits = refl

decided_is_final_example : find_proposal "p1" run.1 ≡ some decided_row
decided_is_final_example =
    decided_is_final digest no_json "p1" decided_row run.1 run.1
      (then_ none_yet (submitted env again submits)) found_decided is_decided

pub sound : IsTaskSound digest no_json store
sound = record { stamped = ((refl, refl), tt); closed = (tt, tt) }

proposals_keep_tasks_example : IsTaskSound digest no_json run.1
proposals_keep_tasks_example = proposals_keep_tasks digest no_json store run.1 steps sound

abbrev taken : List String
taken = "work" ∷ "work-2" ∷ []

allocate_area_slug_first_free_example :
    (n : ℕ) × (n ≤ length taken)
    × (allocate_area_slug "Work!" taken ≡ candidate (slugify "Work!") n)
    × (contains (allocate_area_slug "Work!" taken) taken ≡ false)
    × ((j : ℕ) → j < n → contains (candidate (slugify "Work!") j) taken ≡ true)
allocate_area_slug_first_free_example = allocate_area_slug_first_free "Work!" taken

slug_is : allocate_area_slug "Work!" taken ≡ "work-3"
unfolding allocate_area_slug sin.Prelude.Ascii.lower_char
slug_is = refl

slugify-words_example : words true (slugify "Deep  Work!") ≡ some false
slugify-words_example = slugify-words "Deep  Work!"

summary_is : summarize_ops (create_area "b" ∷ ops) ≡ "create_area x2,transition_task x1"
unfolding summarize_ops
summary_is = refl
