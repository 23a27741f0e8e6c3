-- ===== src/Store/ApplyOp/Kept.antt =====
-- src/store/repo.rs: a batch of ops keeps what its writes keep.
use sin.Prelude.{
  String, ◌≡◌, refl, ◌∙◌, true, not, some, List, [], ◌∷◌, ◌==◌, subst, arith, eq_refl, Option-cases,
  inl, inr,
}
use sin.Core.Types.{
  TaskId, WeekId, DirectionId, RhythmId, TaskStatus, RhythmStatus, Alloc, triage_direction_id,
}
use sin.Core.Transitions.{task_transition_allowed, check_task_transition, check_rhythm_transition}
use sin.Core.Proposal.Errors.{
  Sin90Op, create_area, create_task, create_direction, transition_task, create_tasks, reorder_tasks,
  adjust_rhythm, carry_over_task, assign_task_direction, draft_review_body,
}
use sin.Store.Errors.{
  Event, StoreResult, ok, err, transition_checked, Ends, returns, fails, Ends-bind, Ends-fail_if,
  Ends-found, Ends-map,
}
use sin.Store.Rows.{is_some, column, select, update, column-update, is_some-column}
use sin.Store.Tables.{
  TaskRow, Tables, Env, Tx, task_key, find_task, find_direction, triage_via_allowed,
}
use sin.Store.Tables.Statements.{
  same_text, stamp, log_event, set_status, read_task_status, read_rhythm_status,
  require_task_week_open,
}
use sin.Store.ApplyOp.{apply_arm, apply_op, apply_ops}
use sin.Store.ApplyOp.Change.{
  apply_transition, apply_adjust, apply_carry_over, apply_assign, insert_carried, carried_task,
  require_directions_exist, in_inbox, task_moved,
}
use sin.Store.ApplyOp.Effects.{logged, log_event-Ends, insert_task-Ends, IsInserted}
use sin.Store.ApplyOp.Keeps.{
  status_of, Keeps, Any, logs, create_area_keeps, create_direction_keeps, create_task_keeps,
  create_tasks_keeps, reorder_keeps, draft_keeps,
}

pub observe : {S : Type 0} (r : StoreResult S) → Ends (λ got. r ≡ ok got) Any r
observe (ok got) = returns got refl
observe (err e) = fails e tt

read_status :
    (id : TaskId) (db : Tables) (s : TaskStatus)
    → read_task_status id db ≡ ok s
    → column status_of (find_task id db) ≡ some s
unfolding read_task_status
read_status id db s h = elim (Option-cases (find_task id db)) [
  | inl e ↦ ground (arith, e)
  | inr (row, e) ↦ ground (arith, e)
]

pub allowed :
    (from to : TaskStatus) (u : Unit {0})
    → transition_checked (check_task_transition from to) ≡ ok u
    → task_transition_allowed from to ≡ true
unfolding check_task_transition
allowed from to u h = ground arith

closed_status :
    (id : TaskId) (from : TaskStatus) (now : String) (db : Tables)
    → column status_of (find_task id db) ≡ some from
    → column status_of
        (select task_key id (update task_key id (set_status TaskStatus.carried_over now) db.tasks))
      ≡ some TaskStatus.carried_over
closed_status id from now db h =
    column-update task_key status_of TaskStatus.carried_over
      (set_status TaskStatus.carried_over now) id id db.tasks (λ row. refl) (λ row. refl)
      (is_some-column status_of (find_task id db) h)
    ∙ rw (eq_refl id) refl

module _ {env : Env} {source : String} {K : Tx → Type 0} (k : Keeps env source K)
    (now : String) where
  transition_keeps :
      (id : TaskId) (to : TaskStatus) (tx : Tx)
      → K tx
      → Ends K Any (apply_transition env now id to tx)
  unfolding apply_transition
  transition_keeps id to tx h = Ends-bind (observe (require_task_week_open id tx.tables)) λ u q.
      Ends-bind (observe (read_task_status id tx.tables)) λ from e.
        Ends-bind (observe (transition_checked (check_task_transition from to))) λ v r.
          logs k now _ _ (λ i. refl)
            (k.status id from to now tx h (read_status id tx.tables from e) (allowed from to v r))

  adjust_keeps :
      (id : RhythmId) (alloc : List Alloc) (tx : Tx)
      → K tx
      → Ends K Any (apply_adjust env now id alloc tx)
  unfolding apply_adjust
  adjust_keeps id alloc tx h = Ends-bind (observe (require_directions_exist alloc tx.tables)) λ u q.
      Ends-bind (observe (read_rhythm_status id tx.tables)) λ from e.
        Ends-bind
          (observe (transition_checked (check_rhythm_transition from RhythmStatus.adjusted)))
          λ v r. logs k now _ _ (λ i. refl) (k.rhythm id alloc now tx h)

  assign_keeps :
      (id : TaskId) (d : DirectionId) (tx : Tx)
      → K tx
      → Ends K Any (apply_assign env now source id d tx)
  unfolding apply_assign
  assign_keeps id d tx h = Ends-bind (observe (require_task_week_open id tx.tables)) λ u q.
      Ends-fail_if (not (in_inbox (find_task id tx.tables))) _ _ (λ e. tt)
        λ inbox.
          Ends-fail_if (not (triage_via_allowed (stamp (d == triage_direction_id) source))) _ _
            (λ e. tt)
            λ e.
              Ends-fail_if (not (is_some (find_direction d tx.tables))) _ _ (λ e. tt)
                λ e. logs k now _ _ (λ i. refl) (k.assign id d now tx h (ground arith))

  insert_carried_keeps :
      (id : TaskId) (week : WeekId) (row : TaskRow) (before tx : Tx)
      → K before
      → find_task id before.tables ≡ some row
      → K tx
      → column status_of (find_task id tx.tables) ≡ some TaskStatus.carried_over
      → Ends K Any (insert_carried env now id week row tx)
  unfolding insert_carried
  insert_carried_keeps id week row before tx hb f h c =
      Ends-bind
        (Ends-map (λ db i. i) (λ e q. tt)
          (insert_task-Ends (carried_task _ week now row) tx.tables))
        λ db i.
          let at =
            subst (λ d. IsInserted (carried_task (env.ulid tx.calls) week now row) tx.tables d)
              i.tables i in
          rw i.tables
            (logs k now _ _ (λ i. refl) (k.carried id week now row _ before tx hb f h c at))

  carry_over_keeps :
      (id : TaskId) (week : WeekId) (tx : Tx)
      → K tx
      → Ends K Any (apply_carry_over env now id week tx)
  unfolding apply_carry_over
  carry_over_keeps id week tx h = Ends-bind (observe (require_task_week_open id tx.tables)) λ u q.
      Ends-found (find_task id tx.tables) _ _ (λ e. tt)
        λ row f.
          Ends-fail_if (same_text row.task.week_id week) _ _ (λ e. tt)
            λ e. Ends-bind (observe (read_task_status id tx.tables)) λ from e.
              Ends-bind
                (observe (transition_checked (check_task_transition from TaskStatus.carried_over)))
                λ v r.
                  let known = read_status id tx.tables from e in
                  let closed =
                    k.status id from TaskStatus.carried_over now tx h known (allowed from _ v r) in
                  Ends-bind (any_ends (task_moved id from TaskStatus.carried_over now) _) λ next e.
                    rw e (
                      insert_carried_keeps id week row tx _ h f
                        (k.event (task_moved id from TaskStatus.carried_over now) _ (λ i. refl)
                          closed)
                        (closed_status id from now tx.tables known))
    where
      any_ends :
          (columns : String → Event) (t : Tx)
          → Ends (λ next. next ≡ logged env columns t) Any (log_event env columns t)
      any_ends columns t = Ends-map (λ n e. e) (λ e q. tt) (log_event-Ends env columns t)

module _ {env : Env} {source : String} {K : Tx → Type 0} (k : Keeps env source K) where
  apply_arm_keeps :
      (now : String) (op : Sin90Op) (tx : Tx) → K tx → Ends K Any (apply_arm env source now op tx)
  unfolding apply_arm
  apply_arm_keeps now (create_area title) tx h = create_area_keeps k now title tx h
  apply_arm_keeps now (create_task title d parent kind energy est) tx h =
      create_task_keeps k now title d parent _ _ est tx h
  apply_arm_keeps now (create_direction title window) tx h =
      create_direction_keeps k now title window tx h
  apply_arm_keeps now (transition_task id to) tx h = transition_keeps k now id to tx h
  apply_arm_keeps now (create_tasks week tasks) tx h = create_tasks_keeps k now week 0 tasks tx h
  apply_arm_keeps now (reorder_tasks week order) tx h = reorder_keeps k now week order tx h
  apply_arm_keeps now (adjust_rhythm id alloc) tx h = adjust_keeps k now id alloc tx h
  apply_arm_keeps now (carry_over_task id week) tx h = carry_over_keeps k now id week tx h
  apply_arm_keeps now (assign_task_direction id d) tx h = assign_keeps k now id d tx h
  apply_arm_keeps now (draft_review_body id base text) tx h = draft_keeps k now id text tx h

  -- a property that every write keeps is kept by a batch, validated or not
  pub apply_ops_keeps :
      (ops : List Sin90Op) (tx : Tx) → K tx → Ends K Any (apply_ops env source ops tx)
  unfolding apply_ops apply_op
  apply_ops_keeps [] tx h = returns tx h
  apply_ops_keeps (op ∷ ops) tx h =
      Ends-bind (apply_arm_keeps _ op _ (k.clock tx h)) λ next b. apply_ops_keeps ops next b
