-- ===== src/Core/Proposal/Runs.antt =====
-- src/core/proposal.rs: what an accepted batch does to the statuses of tasks.
use sin.Prelude.{
  ℕ, ◌+◌, ◌≤◌, String, ◌≡◌, inl, inr, refl, ◌∙◌, true, some, List, [], ◌∷◌, ◌==◌, arith, eq_iff,
  Bool-cases, if◌then◌else◌,
}
use sin.Core.Types.{TaskId, TaskStatus}
use sin.Core.Transitions.{task_transition_allowed, task_is_terminal}
use sin.Core.Transitions.Graph.{Run, here, next, Run-trans, terminal_exact, task_lifecycle}
use sin.Core.Proposal.Errors.{
  Sin90Op, create_area, create_task, create_direction, transition_task, create_tasks, reorder_tasks,
  adjust_rhythm, carry_over_task, assign_task_direction, draft_review_body, ok, >>=-eq-ok,
}
use sin.Core.Proposal.Working.{
  Working, task_status, set_task, set_task_direction, set_review_hash, task_status-set_task,
}
use sin.Core.Proposal.Validate.{validate_draft, validate_op, validate_ops}
use sin.Core.Proposal.Batch.{
  validate_transition_ok, validate_carry_over_ok, validate_assign_ok, validate_draft_ok,
}

-- how many ops of the batch change the status of the task
abbrev pub status_changes : TaskId → Sin90Op → ℕ
status_changes id (transition_task t to) = if t == id then 1 else 0
status_changes id (carry_over_task t week) = if t == id then 1 else 0
status_changes id _ = 0

abbrev pub total_changes : TaskId → List Sin90Op → ℕ
total_changes id [] = 0
total_changes id (op ∷ ops) = status_changes id op + total_changes id ops

-- the task has a status after the changes, by that many legal transitions
abbrev pub MovesBy : TaskId → TaskStatus → ℕ → Working → Type 0
MovesBy id s n w' =
    (s' : TaskStatus) × (task_status w' id ≡ some s') × Run task_transition_allowed s n s'

set_task-MovesBy :
    (w : Working) (t id : TaskId) (from to s : TaskStatus)
    → task_status w t ≡ some from
    → task_transition_allowed from to ≡ true
    → task_status w id ≡ some s
    → MovesBy id s (if t == id then 1 else 0) (set_task w t to)
set_task-MovesBy w t id from to s known legal e = elim (Bool-cases (t == id)) [
  | inl same ↦
      let p : from ≡ s = cc ((eq_iff t id).0 same) in
      rw same (to, rw (task_status-set_task w t id to, same) refl, next to here (rw p at legal))
  | inr other ↦ rw other (s, rw (task_status-set_task w t id to, other) e, here)
]

closed_run :
    (s : TaskStatus) {t : TaskStatus} {n : ℕ}
    → task_is_terminal s ≡ true
    → Run task_transition_allowed s n t
    → (n ≡ 0) × (t ≡ s)
closed_run s c here = (refl, refl)
closed_run s c (next {t = t} u r h) =
    let p : t ≡ s = (closed_run s c r).1 in cc ((terminal_exact.1 s).0 c u, rw p at h)

module _ (body_sha256 : String → String) (source : String) where
  draft_keeps_tasks :
      (id : TaskId) (r base body : String) (w : Working) {w' : Working}
      → validate_draft body_sha256 r base body w ≡ ok w'
      → task_status w' id ≡ task_status w id
  unfolding task_status set_review_hash
  draft_keeps_tasks id r base body w h = rw (← (validate_draft_ok body_sha256 r base body w h).1)

  op-MovesBy :
      (id : TaskId) (s : TaskStatus) (op : Sin90Op) (w : Working) {w' : Working}
      → validate_op body_sha256 source op w ≡ ok w'
      → task_status w id ≡ some s
      → MovesBy id s (status_changes id op) w'
  unfolding validate_op
  op-MovesBy id s (create_area t) w h e = (s, ground arith, here)
  op-MovesBy id s (create_task t d p k n m) w h e = (s, ground arith, here)
  op-MovesBy id s (create_direction t x) w h e = (s, ground arith, here)
  op-MovesBy id s (create_tasks x ts) w h e = (s, ground arith, here)
  op-MovesBy id s (reorder_tasks x o) w h e = (s, ground arith, here)
  op-MovesBy id s (adjust_rhythm r a) w h e = (s, ground arith, here)
  op-MovesBy id s (transition_task t to) w h e =
      let (from, known, legal, same) = validate_transition_ok t to w h in
      rw (← same) (set_task-MovesBy w t id from to s known legal e)
  op-MovesBy id s (carry_over_task t week) w h e =
      let (from, known, legal, same) = validate_carry_over_ok t week w h in
      rw (← same) (set_task-MovesBy w t id from TaskStatus.carried_over s known legal e)
  op-MovesBy id s (assign_task_direction t d) w h e = (
    s,
    rw (← (validate_assign_ok source t d w h).1) (unfold task_status set_task_direction in e),
    here,
  )
  op-MovesBy id s (draft_review_body r b body) w h e =
      (s, draft_keeps_tasks id r b body w h ∙ e, here)

  ops-MovesBy :
      (id : TaskId) (s : TaskStatus) (ops : List Sin90Op) (w : Working) {w' : Working}
      → validate_ops body_sha256 source ops w ≡ ok w'
      → task_status w id ≡ some s
      → MovesBy id s (total_changes id ops) w'
  unfolding validate_ops
  ops-MovesBy id s [] w h e = (s, ground arith, here)
  ops-MovesBy id s (op ∷ ops) w h e =
      let (w1, h1, h2) = >>=-eq-ok (validate_op body_sha256 source op w) _ h in
      let (s1, e1, r1) = op-MovesBy id s op w h1 e in
      let (s2, e2, r2) = ops-MovesBy id s1 ops w1 h2 e1 in
      (s2, e2, Run-trans r1 r2 (total_changes id (op ∷ ops)) refl)

  -- An accepted batch moves each known task along legal transitions, one for each op of the batch
  -- that names the task in a transition or a carry-over: so there are at most three such ops, and
  -- none if the task was closed before the batch.
  pub accepted_task_run :
      (id : TaskId) (s : TaskStatus) (ops : List Sin90Op) (w w' : Working)
      → validate_ops body_sha256 source ops w ≡ ok w'
      → task_status w id ≡ some s
      → MovesBy id s (total_changes id ops) w'
        × (total_changes id ops ≤ 3)
        × (task_is_terminal s ≡ true → total_changes id ops ≡ 0)
  accepted_task_run id s ops w w' h e =
      let m = ops-MovesBy id s ops w h e in
      (m, task_lifecycle.2 s m.0 _ m.2, λ t. (closed_run s t m.2).0)
