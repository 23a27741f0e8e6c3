-- ===== src/Core/Proposal/Placement.antt =====
-- src/core/proposal.rs: a batch, and the directions under which tasks are filed.
use sin.Prelude.{
  ℕ, ◌+◌, String, ◌≡◌, ◌≢◌, ◌⊎◌, inl, inr, refl, false, some, List, [], ◌∷◌, ◌==◌, arith, eq_iff,
  Bool-cases, if◌then◌else◌,
}
use sin.Core.Types.{TaskId, DirectionId, triage_direction_id}
use sin.Core.Proposal.Errors.{
  Sin90Op, create_area, create_task, create_direction, transition_task, create_tasks, reorder_tasks,
  adjust_rhythm, carry_over_task, assign_task_direction, draft_review_body, ok, >>=-eq-ok,
}
use sin.Core.Proposal.Working.{
  Working, task_direction, set_task, set_task_direction, set_review_hash,
  task_direction-set_task_direction,
}
use sin.Core.Proposal.Validate.{validate_op, validate_ops}
use sin.Core.Proposal.Batch.{
  IsAssignable, validate_transition_ok, validate_carry_over_ok, validate_assign_ok,
  validate_draft_ok,
}

-- how many ops of the batch assign the task to a direction
abbrev pub assigns : TaskId → Sin90Op → ℕ
assigns id (assign_task_direction t d) = if t == id then 1 else 0
assigns id _ = 0

abbrev pub total_assigns : TaskId → List Sin90Op → ℕ
total_assigns id [] = 0
total_assigns id (op ∷ ops) = assigns id op + total_assigns id ops

-- a placement that proposals of this source may not change
abbrev pub IsPlaced : String → TaskId → DirectionId → Working → Type 0
IsPlaced source id d w =
    (task_direction w id ≡ some (some d))
    × ((d ≢ triage_direction_id)
        ⊎ ((source ≢ "direct") × (w.ctx.task_triage_via_classify id ≡ false)))

module _ (body_sha256 : String → String) (source : String) (id : TaskId) (d : DirectionId) where
  placed_not_assignable :
      (e : DirectionId) (w : Working) → IsPlaced source id d w → IsAssignable source id e w → ⊥
  placed_not_assignable e w p a = ground (arith, p.0, p.1, a.task_known, a.in_inbox)

  assign-IsPlaced :
      (t : TaskId) (e : DirectionId) (w : Working)
      → IsAssignable source t e w
      → IsPlaced source id d w
      → (assigns id (assign_task_direction t e) ≡ 0)
        × IsPlaced source id d (set_task_direction w t (some e))
  assign-IsPlaced t e w a p = elim (Bool-cases (t == id)) [
    | inl same ↦
        let q : t ≡ id = (eq_iff t id).0 same in absurd (placed_not_assignable e w p (rw q at a))
    | inr other ↦ rw other (
      refl,
      (
        rw (task_direction-set_task_direction w t id (some e), other) p.0,
        unfold set_task_direction in p.1,
      ),
    )
  ]

  op-IsPlaced :
      (op : Sin90Op) (w : Working) {w' : Working}
      → validate_op body_sha256 source op w ≡ ok w'
      → IsPlaced source id d w
      → (assigns id op ≡ 0) × IsPlaced source id d w'
  unfolding validate_op set_task task_direction set_review_hash
  op-IsPlaced (create_area t) w h p = (refl, ground arith)
  op-IsPlaced (create_task t d' q k n m) w h p = (refl, ground arith)
  op-IsPlaced (create_direction t x) w h p = (refl, ground arith)
  op-IsPlaced (create_tasks x ts) w h p = (refl, ground arith)
  op-IsPlaced (reorder_tasks x o) w h p = (refl, ground arith)
  op-IsPlaced (adjust_rhythm r a) w h p = (refl, ground arith)
  op-IsPlaced (transition_task t to) w h p = rw (← (validate_transition_ok t to w h).3) (refl, p)
  op-IsPlaced (carry_over_task t week) w h p =
      rw (← (validate_carry_over_ok t week w h).3) (refl, p)
  op-IsPlaced (assign_task_direction t e) w h p =
      let (a, same) = validate_assign_ok source t e w h in rw (← same) (assign-IsPlaced t e w a p)
  op-IsPlaced (draft_review_body r b body) w h p =
      rw (← (validate_draft_ok body_sha256 r b body w h).1) (refl, p)

  -- A task that the user has filed under a direction stays there: if the task's direction is not
  -- the triage direction, or it is and neither is the proposal a direct one nor did classify park
  -- the task, then no op of an accepted batch assigns the task, and the batch leaves its direction.
  pub accepted_keeps_placement :
      (ops : List Sin90Op) (w w' : Working)
      → validate_ops body_sha256 source ops w ≡ ok w'
      → IsPlaced source id d w
      → (total_assigns id ops ≡ 0) × IsPlaced source id d w'
  unfolding validate_ops
  accepted_keeps_placement [] w w' h p = (refl, ground arith)
  accepted_keeps_placement (op ∷ ops) w w' h p =
      let (w1, h1, h2) = >>=-eq-ok (validate_op body_sha256 source op w) _ h in
      let (z1, p1) = op-IsPlaced op w h1 p in
      let (z2, p2) = accepted_keeps_placement ops w1 w' h2 p1 in (omega arith, p2)
