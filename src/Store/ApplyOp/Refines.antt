-- ===== src/Store/ApplyOp/Refines.antt =====
-- src/store/repo.rs: the arms of `apply_op` that check a task or a review, and a batch of ops, beside the
-- view of the validator.
use sin.Prelude.{
  String, Bool, ◌≡◌, ◌⊎◌, refl, ◌∙◌, true, false, not, some, List, [], ◌∷◌, ◌==◌, arith, inl, inr,
}
use sin.Core.Types.{TaskId, WeekId, DirectionId, ReviewId, TaskStatus, triage_direction_id}
use sin.Core.Transitions.{task_transition_allowed}
use sin.Core.Proposal.Errors.{
  Sin90Op, create_area, create_task, create_direction, transition_task, create_tasks, reorder_tasks,
  adjust_rhythm, carry_over_task, assign_task_direction, draft_review_body, NewTask, ReviewSnap,
}
use sin.Core.Proposal.Errors
use sin.Core.Proposal.Working.{Working, task_status, set_task, set_task_direction, set_review_hash}
use sin.Core.Proposal.Validate.{validate_op, validate_ops}
use sin.Core.Proposal.Batch.{
  IsAssignable, IsDraftable, validate_transition_ok, validate_carry_over_ok, validate_assign_ok,
  validate_draft_ok,
}
use sin.Store.Errors.{
  StoreError, ok, Ends, Ends-observe, returns, Ends-bind, Ends-fail_if, Ends-found, Ends-map,
}
use sin.Store.Rows.{is_some, is_some-column}
use sin.Store.Proposals.Snapshot.{task_status_column, task_direction_column}
use sin.Store.Tables.{Env, Tx, find_task, find_direction, find_review, triage_via_allowed}
use sin.Store.Tables.Statements.{same_text, stamp}
use sin.Store.ApplyOp.{apply_arm, apply_op, apply_ops}
use sin.Store.ApplyOp.Change.{apply_carry_over, apply_assign, apply_draft, in_inbox, drafted}
use sin.Store.ApplyOp.Effects.{is_check, is_foreign_key}
use sin.Store.ApplyOp.Agrees.{Agrees}
use sin.Store.ApplyOp.Views.{live, set_status-Agrees, set_direction-Agrees, set_body-Agrees}
use sin.Store.ApplyOp.Refusals.{
  Refusal, Unblocked, in_week-IsInWeek, require_task_week_open-Ends, read_task_known, checked_ok,
  false-true, lost, in_inbox_known, drafted_known,
}
use sin.Store.ApplyOp.Arms.{
  Judged, logs, create_area_fine, create_direction_fine, create_task_fine, create_tasks_fine,
  reorder_fine, adjust_fine, transition_fine, insert_carried_fine,
}

module _ (body_sha256 : String → String) (env : Env) (now : String) where
  module _ (w : Working) where
    carry_over_fine :
        (id : TaskId) (to : WeekId) (from : TaskStatus) (tx : Tx)
        → Agrees w (live body_sha256 tx.tables)
        → task_status w id ≡ some from
        → task_transition_allowed from TaskStatus.carried_over ≡ true
        → Judged body_sha256 env now
            (set_task w id TaskStatus.carried_over)
            tx.tables
            (carry_over_task id to)
            (apply_carry_over env now id to tx)
    unfolding apply_carry_over
    carry_over_fine id to from tx a known legal =
        let db = tx.tables in
        let there = a.task id from known in
        let closed = set_task w id TaskStatus.carried_over in
        Ends-bind (Ends-map (λ u f. f) (λ e c. inl (inl c)) (require_task_week_open-Ends id db))
          λ u f.
            Ends-found (find_task id db) _ _ (λ q. absurd (lost id from db there q))
              λ source q.
                Ends-fail_if (same_text source.task.week_id to) _ _
                  (λ same. inl (inr ((in_week-IsInWeek id to db).0 (rw q same), refl)))
                  λ apart.
                    rw
                      (
                        read_task_known id db from there,
                        checked_ok from TaskStatus.carried_over legal,
                      )
                      (Ends-map
                        (λ next c. (
                          c,
                          λ e r. elim r [
                            | inl (h, x) ↦ f h
                            | inr (h, x) ↦ differ (rw q at ((in_week-IsInWeek id to db).1 h)) apart
                          ],
                        ))
                        (λ e c. inr c)
                        (Ends-bind
                          (logs body_sha256 env now closed _ _ (
                            set_status-Agrees body_sha256 id TaskStatus.carried_over now w db a
                              (is_some-column task_status_column (find_task id db) there)))
                          λ next b.
                            insert_carried_fine body_sha256 env now closed id to source next b))
      where
        differ : {b : Bool} → b ≡ true → b ≡ false → ⊥
        differ h q = cc

    assign_fine :
        (source : String) (id : TaskId) (d : DirectionId) (tx : Tx)
        → Agrees w (live body_sha256 tx.tables)
        → IsAssignable source id d w
        → Judged body_sha256 env now
            (set_task_direction w id (some d))
            tx.tables
            (assign_task_direction id d)
            (apply_assign env now source id d tx)
    unfolding apply_assign
    assign_fine source id d tx a ok_ =
        let db = tx.tables in
        let there = a.direction id ok_.current ok_.task_known in
        let inbox =
          in_inbox_known (find_task id db) ok_.current there
            (elim ok_.in_inbox [ inl q ↦ inl q | inr q ↦ inr q.0 ]) in
        Ends-bind (Ends-map (λ u f. f) (λ e c. inl c) (require_task_week_open-Ends id db)) λ u f.
          Ends-fail_if (not (in_inbox (find_task id db))) _ _
            (λ q. absurd (false-true (rw inbox at q)))
            λ q.
              Ends-fail_if (not (triage_via_allowed (stamp (d == triage_direction_id) source))) _ _
                (λ q. inr (is_check "sin90_tasks"))
                λ q.
                  Ends-fail_if (not (is_some (find_direction d db))) _ _
                    (λ q. inr (is_foreign_key "sin90_tasks"))
                    λ q.
                      Ends-map (λ next c. (c, λ e (h, x). f h)) (λ e c. inr c)
                        (logs body_sha256 env now (set_task_direction w id (some d)) _ _ (
                          set_direction-Agrees body_sha256 source id d now w db a
                            (is_some-column task_direction_column (find_task id db) there)))

    draft_fine :
        (id : ReviewId) (base body : String) (tx : Tx)
        → Agrees w (live body_sha256 tx.tables)
        → IsDraftable body_sha256 id base body w
        → Judged body_sha256 env now
            (set_review_hash w id (body_sha256 body))
            tx.tables
            (draft_review_body id base body)
            (apply_draft env now id body tx)
    unfolding apply_draft
    draft_fine id base body tx a ok_ =
        let db = tx.tables in
        let (r, f, p, q) = a.review id ok_.snap ok_.review_known in
        let open_ = drafted_known body_sha256 db (find_review id db) r f (p ∙ ok_.review_open) in
        Ends-fail_if (not (drafted (find_review id db))) _ _
          (λ x. absurd (false-true (rw open_ at x)))
          λ x.
            Ends-map (λ next c. (c, λ e h. h)) (λ e c. inr c)
              (logs body_sha256 env now (set_review_hash w id (body_sha256 body)) _ _
                (set_body-Agrees body_sha256 id body now w db a))

module _ (body_sha256 : String → String) (env : Env) (source : String) where
  -- An op that the validator accepts, on tables that agree with its view, succeeds with nothing against
  -- it and keeps them in agreement, or fails with an error that its view cannot see.
  pub apply_op_refines :
      (op : Sin90Op) (w v : Working) (tx : Tx)
      → Agrees w (live body_sha256 tx.tables)
      → validate_op body_sha256 source op w ≡ Errors.ok v
      → Ends
          (λ next. Agrees v (live body_sha256 next.tables) × Unblocked tx.tables op)
          (Refusal tx.tables op)
          (apply_op env source op tx)
  unfolding validate_op apply_op apply_arm
  apply_op_refines (create_area title) w v tx a h =
      let same : w ≡ v = ground arith in
      Ends-map (λ next b. (rw (← same) b, λ e h. h)) (λ e c. inr c)
        (create_area_fine body_sha256 env _ w title _ a)
  apply_op_refines (create_direction title window) w v tx a h =
      let same : w ≡ v = ground arith in
      Ends-map (λ next b. (rw (← same) b, λ e h. h)) (λ e c. inr c)
        (create_direction_fine body_sha256 env _ w title window _ a)
  apply_op_refines (create_task title d parent kind energy est) w v tx a h =
      let same : w ≡ v = ground arith in
      Ends-map (λ next b. (rw (← same) b, λ e h. h)) (λ e c. inr c)
        (create_task_fine body_sha256 env _ w title d parent _ _ est _ a)
  apply_op_refines (create_tasks week tasks) w v tx a h =
      let same : w ≡ v = ground arith in
      Ends-map (λ next b. (rw (← same) b, λ e h. h)) (λ e c. inr c)
        (create_tasks_fine body_sha256 env _ w week 0 tasks _ a)
  apply_op_refines (reorder_tasks week order) w v tx a h =
      let same : w ≡ v = ground arith in
      rw (← same) (reorder_fine body_sha256 env _ w week order _ a)
  apply_op_refines (adjust_rhythm id alloc) w v tx a h =
      let same : w ≡ v = ground arith in
      let known : w.ctx.rhythm_is_retired id ≡ some false = ground arith in
      rw (← same) (adjust_fine body_sha256 env _ w id alloc _ a known)
  apply_op_refines (transition_task id to) w v tx a h =
      let (from, known, legal, same) = validate_transition_ok id to w h in
      rw (← same) (transition_fine body_sha256 env _ w id to from _ a known legal)
  apply_op_refines (carry_over_task id to) w v tx a h =
      let (from, known, legal, same) = validate_carry_over_ok id to w h in
      rw (← same) (carry_over_fine body_sha256 env _ w id to from _ a known legal)
  apply_op_refines (assign_task_direction id d) w v tx a h =
      let (ok_, same) = validate_assign_ok source id d w h in
      rw (← same) (assign_fine body_sha256 env _ w source id d _ a ok_)
  apply_op_refines (draft_review_body id base body) w v tx a h =
      let (ok_, same) = validate_draft_ok body_sha256 id base body w h in
      rw (← same) (draft_fine body_sha256 env _ w id base body _ a ok_)

  -- an op of the batch fails: it is the first that does, and it is refused on the tables that the ops
  -- before it leave
  abbrev pub Stops : List Sin90Op → Tx → StoreError → Type 0
  Stops [] tx e = ⊥
  Stops (op ∷ ops) tx e =
      Refusal tx.tables op e
      ⊎ ((next : Tx) × (apply_op env source op tx ≡ ok next) × Stops ops next e)

  -- every op succeeds, and nothing stands against it on the tables that it meets
  abbrev pub Passes : List Sin90Op → Tx → Type 0
  Passes [] tx = Unit
  Passes (op ∷ ops) tx =
      Unblocked tx.tables op
      × ((next : Tx) × (apply_op env source op tx ≡ ok next) × Passes ops next)

  -- A batch that the validator accepts, on tables that agree with its view, is applied to its end, with
  -- nothing against any op on the tables that it meets, and leaves the tables in agreement with the
  -- validator's last view; or it stops at an op that the tables it meets refuse. What stands against an
  -- op, and gives its error: the task of a transition, a carry or an assignment is in a week that is
  -- reviewing or closed; a task is carried into the week that it is in; an allocation names a direction
  -- that is not there; an order names a task that is not there in its week. Else the error is the
  -- constraint of a table. So it never fails with a transition that is not allowed, a review that is not
  -- a draft or any other conflict, and fails with an unknown task only in an order.
  pub apply_ops_refines :
      (ops : List Sin90Op) (w v : Working) (tx : Tx)
      → Agrees w (live body_sha256 tx.tables)
      → validate_ops body_sha256 source ops w ≡ Errors.ok v
      → Ends
          (λ last. Agrees v (live body_sha256 last.tables) × Passes ops tx)
          (Stops ops tx)
          (apply_ops env source ops tx)
  unfolding validate_ops apply_ops
  apply_ops_refines [] w v tx a h =
      let same : w ≡ v = ground arith in returns tx (rw (← same) a, tt)
  apply_ops_refines (op ∷ ops) w v tx a h =
      let (w1, h1, h2) = Errors.>>=-eq-ok (validate_op body_sha256 source op w) _ h in
      Ends-bind
        (Ends-map (λ next b. b) (λ e r. inl r) (Ends-observe (apply_op_refines op w w1 tx a h1)))
        λ next (done, (b, free)).
          Ends-map (λ last c. (c.0, (free, (next, done, c.1)))) (λ e r. inr (next, done, r))
            (apply_ops_refines ops w1 v next b h2)
