-- ===== src/Core/Proposal/Overlay/Checks.antt =====
-- src/core/proposal.rs: the checks of the validator on views that answer alike.
use sin.Prelude.{
  String, ◌≡◌, refl, ap, not, Option, none, some, List, [], ◌∷◌, ◌==◌, arith, Option-cases, inl,
  inr, ltb, length, is_empty,
}
use sin.Prelude.Text.{bytes}
use sin.Core.Types.{TaskId, WeekId, DirectionId, ReviewId, TaskStatus, ReviewStatus}
use sin.Core.Transitions.{check_task_transition, task_is_terminal, direction_is_terminal}
use sin.Core.Proposal.Errors.{
  Sin90Op, create_area, create_task, create_direction, transition_task, create_tasks, reorder_tasks,
  adjust_rhythm, carry_over_task, assign_task_direction, draft_review_body, Result, ok, err,
  ProposalError, ReviewSnap, ◌>>=◌, refuse_if, ok_or, checked, unknown_entity, task_closed,
  direction_closed, review_not_draft, stale_base, no_change, too_large, bad_hash, empty_list,
  rhythm_retired,
}
use sin.Core.Proposal.Working.{Working, task_direction, review_body_hash}
use sin.Core.Proposal.Alloc.{check_alloc}
use sin.Core.Proposal.Batch.{hash_known}
use sin.Core.Proposal.Validate.{
  is_draft, unwrap_or, non_blank, require_task, require_open_week, check_parent,
  validate_transition, validate_carry_over, check_inbox, reclassifiable_from_triage,
  validate_assign, validate_draft, validate_checked_draft, is_lowercase_hex_sha256,
  max_review_body_bytes, reject_dupes, validate_op, validate_ops,
}
use sin.Core.Proposal.Overlay.Views.{
  Same, SameResult, ask-Same, bind-Same, set_review_hash-Same, set_task-Same,
  set_task_direction-Same,
}

module _ {w v : Working} (h : Same w v) where
  require_task-Same : (id : String) → require_task w id ≡ require_task v id
  unfolding require_task
  require_task-Same id = rw (h.task id)

  require_open_week-Same : (id : String) → require_open_week w id ≡ require_open_week v id
  unfolding require_open_week
  require_open_week-Same id = rw (h.week id)

  check_parent-Same : (p : Option TaskId) → check_parent w p ≡ check_parent v p
  unfolding check_parent
  check_parent-Same none = refl
  check_parent-Same (some id) = rw (h.parent id)

  check_inbox-Same :
      (source : String) (id : TaskId) (d : DirectionId) (c : Option DirectionId)
      → check_inbox source w id d c ≡ check_inbox source v id d c
  unfolding check_inbox reclassifiable_from_triage
  check_inbox-Same source id d none = refl
  check_inbox-Same source id d (some e) = rw (h.triage id)

  transition-Same :
      (id : TaskId) (to : TaskStatus)
      → SameResult (validate_transition id to w) (validate_transition id to v)
  unfolding validate_transition SameResult
  transition-Same id to =
      ask-Same (require_task w id) (require_task v id) _ _ (require_task-Same id) λ from _.
        bind-Same (checked (check_task_transition from to)) _ _ λ _ _. set_task-Same id h to

  carry_over-Same :
      (id : TaskId) (to : WeekId)
      → SameResult (validate_carry_over id to w) (validate_carry_over id to v)
  unfolding validate_carry_over SameResult
  carry_over-Same id to =
      ask-Same (require_task w id) (require_task v id) _ _ (require_task-Same id) λ from _.
        bind-Same (checked (check_task_transition from TaskStatus.carried_over)) _ _ λ _ _.
          ask-Same (require_open_week w to) (require_open_week v to) _ _ (require_open_week-Same to)
            λ _ _. set_task-Same id h TaskStatus.carried_over

  assign-Same :
      (source : String) (id : TaskId) (d : DirectionId)
      → SameResult (validate_assign source id d w) (validate_assign source id d v)
  unfolding validate_assign SameResult
  assign-Same source id d =
      ask-Same (ok_or (task_direction w id) unknown) (ok_or (task_direction v id) unknown) _ _
        (rw (h.direction id))
        λ c _. ask-Same (require_task w id) (require_task v id) _ _ (require_task-Same id) λ st _.
          bind-Same (refuse_if (task_is_terminal st) (task_closed id st)) _ _ λ _ _.
            ask-Same (check_inbox source w id d c) (check_inbox source v id d c) _ _
              (check_inbox-Same source id d c)
              λ _ _.
                ask-Same (ok_or (w.ctx.direction_status d) no_target)
                  (ok_or (v.ctx.direction_status d) no_target) _ _ (rw (h.target d))
                  λ t _.
                    bind-Same (refuse_if (direction_is_terminal t) (direction_closed d t)) _ _
                      λ _ _. set_task_direction-Same id h (some d)
    where
      unknown : ProposalError
      unknown = unknown_entity "task" id

      no_target : ProposalError
      no_target = unknown_entity "direction" d

  draft_snap_none : (r : ReviewId) → w.ctx.review_snap r ≡ none → v.ctx.review_snap r ≡ none
  draft_snap_none r e = ground (arith, h.snap r)

  draft_snap-Same :
      (r : ReviewId) (s : ReviewSnap)
      → w.ctx.review_snap r ≡ some s
      → (t : ReviewSnap) × (v.ctx.review_snap r ≡ some t)
        × (s.status ≡ t.status)
        × (unwrap_or (review_body_hash w r) s.body_sha256
            ≡ unwrap_or (review_body_hash v r) t.body_sha256)
  draft_snap-Same r s e = elim (Option-cases (v.ctx.review_snap r)) [
    | inl none_v ↦ absurd (ground (arith, h.snap r))
    | inr (t, et) ↦ (
      t,
      et,
      ground (arith, h.snap r),
      ground (arith, hash_known w r s e, hash_known v r t et, h.hash r s e),
    )
  ]

  module _ (body_sha256 : String → String) (r : ReviewId) (base body : String) where
    checked_draft-Same :
        (s t : ReviewSnap)
        → s.status ≡ t.status
        → unwrap_or (review_body_hash w r) s.body_sha256
          ≡ unwrap_or (review_body_hash v r) t.body_sha256
        → SameResult
            (validate_checked_draft body_sha256 r base body w s)
            (validate_checked_draft body_sha256 r base body v t)
    unfolding validate_checked_draft SameResult
    checked_draft-Same s t es eh =
        ask-Same _ _ _ _
          (ap (λ (x : ReviewStatus). refuse_if (not (is_draft x)) (review_not_draft r)) es)
          λ _ _.
            ask-Same _ _ _ _
              (ap (λ (x : String). refuse_if (not (x == base)) (stale_base "review" r)) eh)
              λ _ _.
                ask-Same _ _ _ _
                  (ap
                    (λ (x : String).
                      refuse_if (body_sha256 body == x) (no_change "draft_review_body"))
                    eh)
                  λ _ _. set_review_hash-Same r h (body_sha256 body)

    draft-Same :
        SameResult
          (validate_draft body_sha256 r base body w)
          (validate_draft body_sha256 r base body v)
    unfolding validate_draft SameResult
    draft-Same = bind-Same (non_blank "body" body) _ _ λ _ _.
        bind-Same (refuse_if (ltb max_review_body_bytes (length (bytes body))) too_large_body) _ _
          λ _ _. bind-Same (refuse_if (not (is_lowercase_hex_sha256 base)) bad_hash) _ _ λ _ _.
            elim (Option-cases (w.ctx.review_snap r)) [
              | inl e ↦ rw (e, draft_snap_none r e) refl
              | inr (s, e) ↦
                  let (t, et, es, eh) = draft_snap-Same r s e in
                  rw (e, et) (checked_draft-Same s t es eh)
            ]
      where
        too_large_body : ProposalError
        too_large_body = too_large "body" max_review_body_bytes

module _ (body_sha256 : String → String) (source : String) where
  op-Same :
      {w v : Working} (op : Sin90Op)
      → Same w v
      → SameResult (validate_op body_sha256 source op w) (validate_op body_sha256 source op v)
  unfolding validate_op SameResult
  op-Same (create_area t) h = bind-Same (non_blank "title" t) _ _ λ _ _. h
  op-Same {w} {v} (create_task t d p k n m) h =
      bind-Same (non_blank "title" t) _ _
        λ _ _. ask-Same (check_parent w p) (check_parent v p) _ _ (check_parent-Same h p) λ _ _. h
  op-Same (create_direction t x) h =
      bind-Same (non_blank "title" t) _ _
        λ _ _. bind-Same (non_blank "target_window" x) _ _ λ _ _. h
  op-Same {w} {v} (create_tasks x ts) h =
      bind-Same (refuse_if (is_empty ts) (empty_list "create_tasks" x)) _ _ λ _ _.
        ask-Same (require_open_week w x) (require_open_week v x) _ _ (require_open_week-Same h x)
          λ _ _. h
  op-Same {w} {v} (reorder_tasks x o) h =
      ask-Same (require_open_week w x) (require_open_week v x) _ _ (require_open_week-Same h x)
        λ _ _.
          bind-Same (refuse_if (is_empty o) (empty_list "reorder_tasks" x)) _ _
            λ _ _. bind-Same (reject_dupes "reorder_tasks" o) _ _ λ _ _. h
  op-Same {w} {v} (adjust_rhythm r a) h =
      ask-Same (ok_or (w.ctx.rhythm_is_retired r) (unknown_entity "rhythm" r))
        (ok_or (v.ctx.rhythm_is_retired r) (unknown_entity "rhythm" r)) _ _ (rw (h.retired r))
        λ b _.
          bind-Same (refuse_if b (rhythm_retired r)) _ _
            λ _ _. bind-Same (check_alloc a) _ _ λ _ _. h
  op-Same (transition_task t to) h = transition-Same h t to
  op-Same (carry_over_task t x) h = carry_over-Same h t x
  op-Same (assign_task_direction t d) h = assign-Same h source t d
  op-Same (draft_review_body r b body) h = draft-Same h body_sha256 r b body

  pub ops-Same :
      (ops : List Sin90Op) (w v : Working)
      → Same w v
      → SameResult (validate_ops body_sha256 source ops w) (validate_ops body_sha256 source ops v)
  unfolding validate_ops SameResult
  ops-Same [] w v h = h
  ops-Same (op ∷ ops) w v h =
      both (ops-Same ops) (validate_op body_sha256 source op w)
        (validate_op body_sha256 source op v) (op-Same op h)
    where
      rest : Working → Result Working
      rest = validate_ops body_sha256 source ops

      both :
          ((w1 v1 : Working) → Same w1 v1 → SameResult (rest w1) (rest v1))
          → (a b : Result Working) → SameResult a b
          → SameResult (a >>= rest) (b >>= rest)
      both ih (ok w1) (ok v1) k = ih w1 v1 k
      both ih (err e) (err f) k = k
      both ih (ok w1) (err f) k = absurd k
      both ih (err e) (ok v1) k = absurd k
