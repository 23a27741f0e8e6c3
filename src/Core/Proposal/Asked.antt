-- ===== src/Core/Proposal/Asked.antt =====
-- src/core/proposal.rs: which questions the validator puts to its context for an op.
use sin.Prelude.{
  String, ◌≡◌, refl, sym, ◌∙◌, ap, Option, none, some, List, [], ◌∷◌, arith, is_empty, All,
  Option-cases, inl, inr,
}
use sin.Core.Types.{TaskId, WeekId, DirectionId, ReviewId, TaskStatus}
use sin.Core.Proposal.Errors.{
  Sin90Op, Sin90Proposal, create_area, create_task, create_direction, transition_task, create_tasks,
  reorder_tasks, adjust_rhythm, carry_over_task, assign_task_direction, draft_review_body, Result,
  ok, err, ReviewSnap, ◌>>=◌, ◌>>◌, refuse_if, ok_or, checked,
}
use sin.Core.Proposal.Errors
use sin.Core.Proposal.Working.{
  ValidationCtx, Working, new, task_status, set_task, task_direction, set_task_direction,
  review_body_hash, set_review_hash,
}
use sin.Core.Proposal.Validate.{
  require_task, require_open_week, check_parent, validate_transition, validate_carry_over,
  check_inbox, reclassifiable_from_triage, validate_assign, validate_draft, validate_checked_draft,
  non_blank, validate_op, validate_ops, validate,
}

-- two contexts give the same answers to what an op asks
abbrev pub Asked : Sin90Op → ValidationCtx → ValidationCtx → Type 0
Asked (create_task title d none k e m) c d' = Unit
Asked (create_task title d (some parent) k e m) c d' = c.task_parent parent ≡ d'.task_parent parent
Asked (transition_task id to) c d = c.task_status id ≡ d.task_status id
Asked (create_tasks week tasks) c d = c.week_status week ≡ d.week_status week
Asked (reorder_tasks week order) c d = c.week_status week ≡ d.week_status week
Asked (adjust_rhythm id alloc) c d = c.rhythm_is_retired id ≡ d.rhythm_is_retired id
Asked (carry_over_task id week) c d =
    (c.task_status id ≡ d.task_status id) × (c.week_status week ≡ d.week_status week)
Asked (assign_task_direction id target) c d =
    (c.task_status id ≡ d.task_status id)
    × (c.task_direction id ≡ d.task_direction id)
    × (c.direction_status target ≡ d.direction_status target)
    × (c.task_triage_via_classify id ≡ d.task_triage_via_classify id)
Asked (draft_review_body id base body) c d = c.review_snap id ≡ d.review_snap id
Asked _ c d = Unit

Asked-refl : (op : Sin90Op) (c : ValidationCtx) → Asked op c c
Asked-refl (create_task title d none k e m) c = tt
Asked-refl (create_task title d (some parent) k e m) c = refl
Asked-refl (transition_task id to) c = refl
Asked-refl (create_tasks week tasks) c = refl
Asked-refl (reorder_tasks week order) c = refl
Asked-refl (adjust_rhythm id alloc) c = refl
Asked-refl (carry_over_task id week) c = (refl, refl)
Asked-refl (assign_task_direction id target) c = (refl, refl, refl, refl)
Asked-refl (draft_review_body id base body) c = refl
Asked-refl (create_area title) c = tt
Asked-refl (create_direction title target_window) c = tt

-- the overlay over another context
abbrev pub over : ValidationCtx → Working → Working
over c w = record w { ctx = c }

abbrev pub map_ok : {A B : Type 0} → (A → B) → Result A → Result B
map_ok f (ok a) = ok (f a)
map_ok f (err e) = err e

module _ (c d : ValidationCtx) (w : Working) where
  transition_asks :
      (id : TaskId) (to : TaskStatus)
      → c.task_status id ≡ d.task_status id
      → validate_transition id to (over c w)
        ≡ map_ok (over c) (validate_transition id to (over d w))
  unfolding validate_transition require_task task_status set_task
  transition_asks id to e = ground (arith, e)

  carry_over_asks :
      (id : TaskId) (week : WeekId)
      → c.task_status id ≡ d.task_status id
      → c.week_status week ≡ d.week_status week
      → validate_carry_over id week (over c w)
        ≡ map_ok (over c) (validate_carry_over id week (over d w))
  unfolding validate_carry_over require_task require_open_week task_status set_task
  carry_over_asks id week e f = ground (arith, e, f)

  inbox_asks :
      (source : String) (id : TaskId) (target : DirectionId) (current : Option DirectionId)
      → c.task_triage_via_classify id ≡ d.task_triage_via_classify id
      → check_inbox source (over c w) id target current
        ≡ check_inbox source (over d w) id target current
  unfolding check_inbox reclassifiable_from_triage
  inbox_asks source id target none e = refl
  inbox_asks source id target (some x) e = rw e refl

  assign_asks :
      (source : String) (id : TaskId) (target : DirectionId)
      → Asked (assign_task_direction id target) c d
      → validate_assign source id target (over c w)
        ≡ map_ok (over c) (validate_assign source id target (over d w))
  unfolding validate_assign require_task task_status task_direction set_task_direction
  assign_asks source id target a = elim (Option-cases (task_direction (over d w) id)) [
    | inl e ↦ ground (arith, a.0, a.1, e)
    | inr (x, e) ↦ ground (arith, a.0, a.1, a.2, e, inbox_asks source id target x a.3)
  ]

  draft_asks :
      (body_sha256 : String → String) (id : ReviewId) (base body : String)
      → c.review_snap id ≡ d.review_snap id
      → validate_draft body_sha256 id base body (over c w)
        ≡ map_ok (over c) (validate_draft body_sha256 id base body (over d w))
  unfolding validate_draft validate_checked_draft non_blank review_body_hash set_review_hash
  draft_asks body_sha256 id base body e = ground (arith, e)

  module _ (body_sha256 : String → String) (source : String) where
    op_asks :
        (op : Sin90Op)
        → Asked op c d
        → validate_op body_sha256 source op (over c w)
          ≡ map_ok (over c) (validate_op body_sha256 source op (over d w))
    unfolding validate_op check_parent require_open_week
    op_asks (create_area title) a = ground arith
    op_asks (create_task title t none k e m) a = ground arith
    op_asks (create_task title t (some parent) k e m) a = ground (arith, a)
    op_asks (create_direction title target_window) a = ground arith
    op_asks (transition_task id to) a = transition_asks id to a
    op_asks (create_tasks week tasks) a = ground (arith, a)
    op_asks (reorder_tasks week order) a = ground (arith, a)
    op_asks (adjust_rhythm id alloc) a = ground (arith, a)
    op_asks (carry_over_task id week) a = carry_over_asks id week a.0 a.1
    op_asks (assign_task_direction id target) a = assign_asks source id target a
    op_asks (draft_review_body id base body) a = draft_asks body_sha256 id base body a

module _ (body_sha256 : String → String) (source : String) (c d : ValidationCtx) where
  ok-injective : {u v : Working} → Result.ok u ≡ ok v → u ≡ v
  ok-injective e = cc

  ops_asks :
      (ops : List Sin90Op) (w : Working)
      → All (λ op. Asked op c d) ops
      → validate_ops body_sha256 source ops (over c w)
        ≡ map_ok (over c) (validate_ops body_sha256 source ops (over d w))
  unfolding validate_ops
  ops_asks [] w a = refl
  ops_asks (op ∷ ops) w a =
      rw (op_asks c d w body_sha256 source op a.0)
        (after (λ v. ops_asks ops v a.1) (validate_op body_sha256 source op (over d w)) refl)
    where
      after :
          ((v : Working)
            → validate_ops body_sha256 source ops (over c v)
              ≡ map_ok (over c) (validate_ops body_sha256 source ops (over d v)))
          → (r : Result Working) → validate_op body_sha256 source op (over d w) ≡ r
          → (map_ok (over c) r >>= validate_ops body_sha256 source ops)
            ≡ map_ok (over c) (r >>= validate_ops body_sha256 source ops)
      after ih (ok v) e =
          let same : v ≡ over d v = ok-injective (
            sym e
            ∙ op_asks d d w body_sha256 source op (Asked-refl op d)
            ∙ ap (map_ok (over d)) e) in
          ih v ∙ ap (λ x. map_ok (over c) (validate_ops body_sha256 source ops x)) (sym same)
      after ih (err x) e = refl

  -- A proposal is judged alike over two contexts that give the same answers to what its ops ask.
  pub validate_asks :
      (p : Sin90Proposal)
      → All (λ op. Asked op c d) p.ops
      → validate body_sha256 source p c ≡ validate body_sha256 source p d
  unfolding validate new
  validate_asks p a = rw (ops_asks p.ops (new d) a) (
      verdict (refuse_if (is_empty p.ops) Errors.empty)
        (validate_ops body_sha256 source p.ops (new d)))
    where
      verdict :
          (first : Result (Unit {0})) (r : Result Working)
          → Path
              (Result (Unit {0}))
              (first >> (map_ok (over c) r >>= λ x. ok tt))
              (first >> (r >>= λ x. ok tt))
      verdict (err x) r = refl
      verdict (ok u) (err x) = refl
      verdict (ok u) (ok v) = refl
