-- ===== src/Examples/Proposals.antt =====
-- Batches of ops for the validator of src/core/proposal.rs, over a small store.
use sin.Prelude.Text.{eq_apart}
use sin.Prelude.{
  ◌≡◌, ◌↔◌, ◌≤◌, inl, refl, String, true, false, none, some, List, [], ◌∷◌, ◌++◌, ◌==◌,
  if◌then◌else◌,
}
use sin.Core.Types.{
  TaskStatus, DirectionStatus, WeekStatus, ReviewStatus, ProposalStatus, triage_direction_id,
}
use sin.Core.Transitions.{task_is_terminal}
use sin.Core.Proposal.Errors.{
  Sin90Op, transition_task, draft_review_body, create_area, ok, err, ProposalSource, stale_base,
}
use sin.Core.Proposal.Working.{
  ValidationCtx, Working, new, task_status, set_task, set_task_direction, set_review_hash,
}
use sin.Core.Proposal.Validate.{
  validate_op, validate_ops, validate_assign, validate_draft, validate,
}
use sin.Core.Proposal.Batch.{IsAssignable, IsDraftable, assign_exact, draft_exact}
use sin.Core.Proposal.Runs.{MovesBy, total_changes, accepted_task_run}
use sin.Core.Proposal.Placement.{IsPlaced, total_assigns, accepted_keeps_placement}
use sin.Core.Proposal.Overlay.{absorb, verdict, batch_is_sequence}

-- one planned task in the inbox, one filed task, one open week, one direction, one draft review
abbrev old_digest : String
old_digest = "aaaaaaaaaaaaaaaaaaaaaaaaaaaaaaaaaaaaaaaaaaaaaaaaaaaaaaaaaaaaaaaa"

abbrev new_digest : String
new_digest = "bbbbbbbbbbbbbbbbbbbbbbbbbbbbbbbbbbbbbbbbbbbbbbbbbbbbbbbbbbbbbbbb"

abbrev digest : String → String
digest s = if s == "old" then old_digest else new_digest

abbrev small_store : ValidationCtx
small_store = record {
  task_status = λ id.
      if id == "t1"
      then some TaskStatus.planned
      else if id == "t2"
      then some TaskStatus.backlog
      else none;
  week_status = λ id. if id == "w1" then some WeekStatus.active else none;
  rhythm_is_retired = λ id. none;
  area_exists = λ id. false;
  task_parent = λ id. if id == "t1" then some none else if id == "t2" then some none else none;
  direction_status = λ id. if id == "d1" then some DirectionStatus.active else none;
  task_triage_via_classify = λ id. false;
  task_direction =
      λ id. if id == "t1" then some none else if id == "t2" then some (some "d1") else none;
  review_snap = λ id.
      if id == "r1"
      then some (record { status = ReviewStatus.draft; body_sha256 = old_digest })
      else none;
}

abbrev before : Working
before = new small_store

abbrev start_and_finish : List Sin90Op
start_and_finish =
    transition_task "t1" TaskStatus.in_progress ∷ transition_task "t1" TaskStatus.done ∷ []

abbrev after : Working
after = set_task (set_task before "t1" TaskStatus.in_progress) "t1" TaskStatus.done

runs : validate_ops digest "direct" start_and_finish before ≡ ok after
unfolding validate_ops validate_op sin.Core.Proposal.Validate.validate_transition
    sin.Core.Proposal.Validate.require_task task_status new
    sin.Core.Transitions.check_task_transition sin.Core.Transitions.task_transition_allowed set_task
runs = refl

accepted_task_run_example :
    MovesBy "t1" TaskStatus.planned (total_changes "t1" start_and_finish) after
    × (total_changes "t1" start_and_finish ≤ 3)
    × (task_is_terminal TaskStatus.planned ≡ true → total_changes "t1" start_and_finish ≡ 0)
unfolding task_status new
accepted_task_run_example =
    accepted_task_run digest "direct" "t1" TaskStatus.planned start_and_finish before after runs
      refl

filed_task-IsPlaced : IsPlaced "direct" "t2" "d1" before
unfolding sin.Core.Proposal.Working.task_direction new
filed_task-IsPlaced = (refl, inl (eq_apart "d1" triage_direction_id refl))

abbrev two_steps : List Sin90Op
two_steps = transition_task "t1" TaskStatus.in_progress ∷ create_area "health" ∷ []

abbrev after_two : Working
after_two = set_task before "t1" TaskStatus.in_progress

two_accepted : validate_ops digest "direct" two_steps before ≡ ok after_two
unfolding validate_ops validate_op sin.Core.Proposal.Validate.validate_transition
    sin.Core.Proposal.Validate.require_task task_status new
    sin.Core.Transitions.check_task_transition sin.Core.Transitions.task_transition_allowed
    sin.Core.Proposal.Validate.non_blank
two_accepted = refl

accepted_keeps_placement_example :
    (total_assigns "t2" two_steps ≡ 0) × IsPlaced "direct" "t2" "d1" after_two
accepted_keeps_placement_example =
    accepted_keeps_placement digest "direct" "t2" "d1" two_steps before after_two two_accepted
      filed_task-IsPlaced

batch_is_sequence_example :
    verdict (validate_ops digest "direct" (two_steps ++ start_and_finish) before)
    ≡ verdict (validate_ops digest "direct" start_and_finish (new (absorb after_two)))
batch_is_sequence_example =
    batch_is_sequence digest "direct" two_steps start_and_finish small_store after_two two_accepted

assign_exact_example :
    (validate_assign "direct" "t1" "d1" before ≡ ok (set_task_direction before "t1" (some "d1")))
    ↔ (IsAssignable "direct" "t1" "d1" before
        × (set_task_direction before "t1" (some "d1") ≡ set_task_direction before "t1" (some "d1")))
assign_exact_example =
    assign_exact "direct" "t1" "d1" before (set_task_direction before "t1" (some "d1"))

assigned :
    validate_assign "direct" "t1" "d1" before ≡ ok (set_task_direction before "t1" (some "d1"))
unfolding validate_assign sin.Core.Proposal.Working.task_direction new
    sin.Core.Proposal.Validate.require_task task_status task_is_terminal
    sin.Core.Proposal.Validate.check_inbox sin.Core.Transitions.direction_is_terminal
assigned = refl

draft_exact_example :
    (validate_draft digest "r1" old_digest "new" before
      ≡ ok (set_review_hash before "r1" new_digest))
    ↔ (IsDraftable digest "r1" old_digest "new" before
        × (set_review_hash before "r1" new_digest ≡ set_review_hash before "r1" new_digest))
draft_exact_example =
    draft_exact digest "r1" old_digest "new" before (set_review_hash before "r1" new_digest)

drafted :
    validate_draft digest "r1" old_digest "new" before ≡ ok (set_review_hash before "r1" new_digest)
unfolding validate_draft sin.Core.Proposal.Validate.non_blank
    sin.Core.Proposal.Validate.is_lowercase_hex_sha256 new
    sin.Core.Proposal.Working.review_body_hash
drafted = refl

stale_body :
    validate digest "direct"
      (record {
        id = "p1";
        status = ProposalStatus.pending;
        source = ProposalSource.rule;
        ops = draft_review_body "r1" new_digest "new" ∷ [];
        rationale = none;
      })
      small_store
    ≡ err (stale_base "review" "r1")
unfolding validate validate_ops validate_op validate_draft sin.Core.Proposal.Validate.non_blank
    sin.Core.Proposal.Validate.is_lowercase_hex_sha256 new
    sin.Core.Proposal.Working.review_body_hash
stale_body = refl
