-- ===== src/Core/Proposal/Overlay.antt =====
-- src/core/proposal.rs: the working view of a batch, compared with a store to which the earlier ops
-- of the batch have been applied.
mod Views
mod Checks
use sin.Prelude.{
  ℕ, String, ◌≡◌, refl, sym, ◌∙◌, ap, Bool, true, false, not, Option, none, some, List, [], ◌∷◌,
  ◌++◌, ◌==◌, arith, eq_iff, Bool-cases, Option-cases, if◌then◌else◌, inl, inr, ltb, length,
  is_empty,
}
use sin.Prelude.Text.{bytes}
use sin.Core.Types.{TaskId, WeekId, DirectionId, ReviewId, TaskStatus, ReviewStatus}
use sin.Core.Transitions.{check_task_transition, task_is_terminal, direction_is_terminal}
use sin.Core.Proposal.Errors.{
  Sin90Op, create_area, create_task, create_direction, transition_task, create_tasks, reorder_tasks,
  adjust_rhythm, carry_over_task, assign_task_direction, draft_review_body, Result, ok, err,
  ProposalError, ReviewSnap, ◌>>=◌, ◌>>◌, refuse_if, ok_or, checked, unknown_entity, task_closed,
  direction_closed, review_not_draft, stale_base, no_change, too_large, bad_hash, empty_list,
  rhythm_retired,
}
use sin.Core.Proposal.Working.{
  ValidationCtx, Working, new, or_else, snap_hash, task_status, set_task, task_direction,
  set_task_direction, review_body_hash, set_review_hash, task_status-set_task,
  task_direction-set_task_direction, review_body_hash-set_review_hash,
}
use sin.Core.Proposal.Alloc.{check_alloc}
use sin.Core.Proposal.Batch.{hash_known}
use sin.Core.Proposal.Validate.{
  is_draft, unwrap_or, non_blank, require_task, require_open_week, check_parent,
  validate_transition, validate_carry_over, check_inbox, reclassifiable_from_triage,
  validate_assign, validate_draft, validate_checked_draft, is_lowercase_hex_sha256,
  max_review_body_bytes, reject_dupes, validate_op, validate_ops,
}
use Views.{
  Same, SameResult, ask-Same, bind-Same, set_review_hash-Same, set_task-Same,
  set_task_direction-Same, snap_status,
}
use Checks.{ops-Same}

-- the store after the effects that the view has collected
abbrev with_hash : Option ReviewSnap → Option String → Option ReviewSnap
with_hash none x = none
with_hash (some s) none = some s
with_hash (some s) (some x) = some (record s { body_sha256 = x })

pub absorb : Working → ValidationCtx
absorb w = record {
  task_status = task_status w;
  week_status = w.ctx.week_status;
  rhythm_is_retired = w.ctx.rhythm_is_retired;
  area_exists = w.ctx.area_exists;
  task_parent = w.ctx.task_parent;
  direction_status = w.ctx.direction_status;
  task_triage_via_classify = w.ctx.task_triage_via_classify;
  task_direction = task_direction w;
  review_snap = λ id. with_hash (w.ctx.review_snap id) (review_body_hash w id);
}

absorb-hash :
    (w : Working) (id : String) (s : ReviewSnap)
    → w.ctx.review_snap id ≡ some s
    → review_body_hash w id ≡ snap_hash (with_hash (w.ctx.review_snap id) (review_body_hash w id))
absorb-hash w id s e = ground (arith, hash_known w id s e)

absorb-snap :
    (w : Working) (id : String)
    → snap_status (w.ctx.review_snap id)
      ≡ snap_status (with_hash (w.ctx.review_snap id) (review_body_hash w id))
absorb-snap w id = ground arith

absorb-task : (w : Working) (id : String) → task_status w id ≡ task_status (new (absorb w)) id
unfolding absorb new task_status
absorb-task w id = refl

absorb-direction :
    (w : Working) (id : String) → task_direction w id ≡ task_direction (new (absorb w)) id
unfolding absorb new task_direction
absorb-direction w id = refl

new-hash :
    (ctx : ValidationCtx) (id : String)
    → review_body_hash (new ctx) id ≡ snap_hash (ctx.review_snap id)
unfolding new review_body_hash
new-hash ctx id = refl

absorb-Same : (w : Working) → Same w (new (absorb w))
unfolding absorb new
absorb-Same w = record {
  task = absorb-task w;
  direction = absorb-direction w;
  hash = λ id s e. absorb-hash w id s e ∙ sym (new-hash (absorb w) id);
  snap = absorb-snap w;
  week = λ id. refl;
  retired = λ id. refl;
  parent = λ id. refl;
  target = λ id. refl;
  triage = λ id. refl;
}

-- the error of a refused batch
abbrev pub verdict : Result Working → Option ProposalError
verdict (ok w) = none
verdict (err e) = some e

verdict-Same : (a b : Result Working) → SameResult a b → verdict a ≡ verdict b
unfolding SameResult
verdict-Same (ok w) (ok v) h = refl
verdict-Same (err e) (err f) h = ap some h
verdict-Same (ok w) (err f) h = absurd h
verdict-Same (err e) (ok v) h = absurd h

module _ (body_sha256 : String → String) (source : String) where
  pub validate_ops-append :
      (xs ys : List Sin90Op) (w : Working)
      → validate_ops body_sha256 source (xs ++ ys) w
        ≡ (validate_ops body_sha256 source xs w >>= validate_ops body_sha256 source ys)
  unfolding validate_ops
  validate_ops-append [] ys w = refl
  validate_ops-append (op ∷ xs) ys w =
      rest (validate_ops-append xs ys) (validate_op body_sha256 source op w)
    where
      all : List Sin90Op → Working → Result Working
      all = validate_ops body_sha256 source

      rest :
          ((v : Working) → all (xs ++ ys) v ≡ (all xs v >>= all ys))
          → (a : Result Working) → (a >>= all (xs ++ ys)) ≡ ((a >>= all xs) >>= all ys)
      rest ih (ok v) = ih v
      rest ih (err e) = refl

  -- A batch validates as the sequence that it is: when its first ops are accepted, the verdict on
  -- the whole batch is the verdict on the remaining ops against a store to which the statuses,
  -- directions and review digests of the first ops have been applied.
  pub batch_is_sequence :
      (xs ys : List Sin90Op) (ctx : ValidationCtx) (w : Working)
      → validate_ops body_sha256 source xs (new ctx) ≡ ok w
      → verdict (validate_ops body_sha256 source (xs ++ ys) (new ctx))
        ≡ verdict (validate_ops body_sha256 source ys (new (absorb w)))
  batch_is_sequence xs ys ctx w h =
      rw (validate_ops-append xs ys (new ctx), h)
        (verdict-Same _ _ (ops-Same body_sha256 source ys w (new (absorb w)) (absorb-Same w)))
