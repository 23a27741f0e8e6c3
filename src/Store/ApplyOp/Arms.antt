-- ===== src/Store/ApplyOp/Arms.antt =====
-- src/store/repo.rs: the arms of `apply_op` beside the view of the validator.
use mathlib.Core.List.{Memᴰ}
use sin.Prelude.{
  sym, ◌∙◌, subst, ◌↔◌, inl, inr, Bool, none, map, ℕ, suc, String, ◌≡◌, refl, true, false, not,
  Option, some, List, [], ◌∷◌, arith,
}
use sin.Core.Types.{TaskId, WeekId, DirectionId, RhythmId, TaskStatus, TaskKind, Energy, Alloc}
use sin.Core.Transitions.{task_transition_allowed}
use sin.Core.Proposal.Errors.{Sin90Op, transition_task, reorder_tasks, adjust_rhythm, NewTask}
use sin.Core.Proposal.Working.{Working, task_status, set_task}
use sin.Store.Errors.{
  Event, StoreError, StoreResult, not_found, Ends, returns, Ends-bind, Ends-fail_if, Ends-map,
}
use sin.Store.Rows.{is_some, is_some-column, update, column-update_other}
use sin.Store.Proposals.Snapshot.{task_status_column}
use sin.Store.Tables.{TaskRow, Tables, Env, Tx, task_key, find_task, find_direction, find_rhythm}
use sin.Store.Tables.Statements.{log_event}
use sin.Store.ApplyOp.Create.{
  apply_create_area, apply_create_task, apply_create_direction, apply_create_tasks, new_area,
  new_direction, backlog_task, planned_task,
}
use sin.Store.ApplyOp.Change.{
  apply_transition, apply_reorder, apply_adjust, reorder_loop, insert_carried, carried_task,
  require_directions_exist, in_week, set_sort_key, with_tasks,
}
use sin.Store.ApplyOp.Effects.{
  IsConstraint, insert_area-Ends, insert_direction-Ends, insert_task-Ends,
}
use sin.Store.ApplyOp.Agrees.{Agrees, Agrees-Extends}
use sin.Store.ApplyOp.Views.{
  live, log_keeps, with_area-Extends, with_direction-Extends, with_task-Extends, sort_key-Extends,
  set_status-Agrees, adjust-Extends,
}
use sin.Store.ApplyOp.Refusals.{
  Refusal, Unblocked, IsInWeek, task_week, in_week-IsInWeek, require_task_week_open-Ends,
  read_task_known, open_rhythm, read_rhythm_known, checked_ok,
}

-- the tables after a new place of a task
abbrev placed_at : ℕ → String → TaskId → Tables → Tables
placed_at place now id db = with_tasks (update task_key id (set_sort_key place now) db.tasks) db

module _ (body_sha256 : String → String) (env : Env) (now : String) where
  abbrev pub Still : Working → (StoreError → Type 0) → StoreResult Tx → Type 0
  Still w Q r = Ends (λ next. Agrees w (live body_sha256 next.tables)) Q r

  -- with the errors that are left, and nothing against an op that succeeds
  abbrev pub Judged : Working → Tables → Sin90Op → StoreResult Tx → Type 0
  Judged w db op r =
      Ends (λ next. Agrees w (live body_sha256 next.tables) × Unblocked db op) (Refusal db op) r

  pub logs :
      (w : Working) (columns : String → Event) (tx : Tx)
      → Agrees w (live body_sha256 tx.tables)
      → Still w IsConstraint (log_event env columns tx)
  logs w columns tx a = log_keeps body_sha256 (Agrees w) env columns tx a

  module _ (w : Working) where
    pub create_area_fine :
        (title : String) (tx : Tx)
        → Agrees w (live body_sha256 tx.tables)
        → Still w IsConstraint (apply_create_area env now title tx)
    unfolding apply_create_area
    create_area_fine title tx a =
        Ends-bind (insert_area-Ends (new_area _ title _ now) tx.tables)
          λ db e. rw e (logs w _ _ (Agrees-Extends a (with_area-Extends body_sha256 _ tx.tables)))

    pub create_direction_fine :
        (title window : String) (tx : Tx)
        → Agrees w (live body_sha256 tx.tables)
        → Still w IsConstraint (apply_create_direction env now title window tx)
    unfolding apply_create_direction
    create_direction_fine title window tx a =
        Ends-bind (insert_direction-Ends (new_direction _ title window now) tx.tables) λ db e.
          rw e (logs w _ _ (Agrees-Extends a (with_direction-Extends body_sha256 _ tx.tables)))

    pub create_task_fine :
        (title : String) (d : Option DirectionId) (parent : Option TaskId) (kind : TaskKind)
        (energy : Energy) (est : Option ℕ) (tx : Tx)
        → Agrees w (live body_sha256 tx.tables)
        → Still w IsConstraint (apply_create_task env now title d parent kind energy est tx)
    unfolding apply_create_task
    create_task_fine title d parent kind energy est tx a =
        Ends-bind (insert_task-Ends (backlog_task _ d parent title kind energy est now) tx.tables)
          λ db i.
            rw i.tables (logs w _ _ (Agrees-Extends a (with_task-Extends body_sha256 _ tx.tables)))

    pub create_tasks_fine :
        (week : WeekId) (place : ℕ) (tasks : List NewTask) (tx : Tx)
        → Agrees w (live body_sha256 tx.tables)
        → Still w IsConstraint (apply_create_tasks env now week place tasks tx)
    unfolding apply_create_tasks
    create_tasks_fine week place [] tx a = returns tx a
    create_tasks_fine week place (t ∷ tasks) tx a =
        Ends-bind (insert_task-Ends (planned_task _ week place t now) tx.tables) λ db i.
          rw i.tables (
            Ends-bind (logs w _ _ (Agrees-Extends a (with_task-Extends body_sha256 _ tx.tables)))
              λ next b. create_tasks_fine week (suc place) tasks next b)

    -- a change of place leaves the week of each task
    place_keeps :
        (id j : TaskId) (week : WeekId) (place : ℕ) (db : Tables)
        → IsInWeek j week (placed_at place now id db) ↔ IsInWeek j week db
    place_keeps id j week place db =
        let same =
          column-update_other task_key task_week (set_sort_key place now) id j db.tasks
            (λ row. refl) (λ row. refl) in
        ((λ h. sym same ∙ h), (λ h. same ∙ h))

    pub reorder_loop_fine :
        (week : WeekId) (place : ℕ) (order : List TaskId) (db : Tables)
        → Agrees w (live body_sha256 db)
        → Ends
            (λ next.
              Agrees w (live body_sha256 next)
              × ((id : TaskId) → Memᴰ id order → IsInWeek id week db))
            (λ e.
              (id : TaskId) × Memᴰ id order × (IsInWeek id week db → ⊥) × (e ≡ not_found "task" id))
            (reorder_loop env now week place order db)
    unfolding reorder_loop
    reorder_loop_fine week place [] db a = returns db (a, λ id m. elim m [ ])
    reorder_loop_fine week place (id ∷ order) db a =
        let here = in_week-IsInWeek id week db in
        Ends-fail_if (not (in_week week (find_task id db))) _ _
          (λ q. (id, Memᴰ.head refl, (λ h. not_true (here.1 h) q), refl))
          λ q.
            Ends-map
              (λ next b. (
                b.0,
                λ j m.
                    in_order id j (here.0 (true_of q))
                      (λ k. (place_keeps id j week place db).0 (b.1 j k)) m,
              ))
              (λ e c.
                (c.0, Memᴰ.tail c.1, (λ h. c.2 ((place_keeps id c.0 week place db).1 h)), c.3))
              (reorder_loop_fine week (suc place) order _
                (Agrees-Extends a (sort_key-Extends body_sha256 id place now db)))
      where
        not_true : {b : Bool} → b ≡ true → not b ≡ true → ⊥
        not_true h q = absurd (ground (arith, rw h at q))

        true_of : {b : Bool} → not b ≡ false → b ≡ true
        true_of q = ground (arith, q)

        in_order :
            (i j : TaskId)
            → IsInWeek i week db
            → (Memᴰ j order → IsInWeek j week db)
            → Memᴰ j (i ∷ order)
            → IsInWeek j week db
        in_order i j h f (Memᴰ.head e) = subst (λ x. IsInWeek x week db) (sym e) h
        in_order i j h f (Memᴰ.tail m) = f m

    pub reorder_fine :
        (week : WeekId) (order : List TaskId) (tx : Tx)
        → Agrees w (live body_sha256 tx.tables)
        → Judged w tx.tables (reorder_tasks week order) (apply_reorder env now week order tx)
    unfolding apply_reorder
    reorder_fine week order tx a =
        Ends-bind
          (Ends-map (λ next b. b) (λ e c. inl c) (reorder_loop_fine week 0 order tx.tables a))
          λ db b.
            Ends-map (λ next c. (c, λ e (id, m, out, q). out (b.1 id m))) (λ e c. inr c)
              (logs w _ _ b.0)

    require_directions_exist-Ends :
        (alloc : List Alloc) (db : Tables)
        → Ends
            (λ u.
              (d : DirectionId)
              → Memᴰ d (map Alloc.direction_id alloc)
              → find_direction d db ≡ none
              → ⊥)
            (λ e.
              (d : DirectionId) × Memᴰ d (map Alloc.direction_id alloc)
              × (find_direction d db ≡ none)
              × (e ≡ not_found "direction" d))
            (require_directions_exist alloc db)
    unfolding require_directions_exist
    require_directions_exist-Ends [] db = returns tt (λ d m. elim m [ ])
    require_directions_exist-Ends (x ∷ alloc) db =
        Ends-fail_if (not (is_some (find_direction x.direction_id db))) _ _
          (λ q. (x.direction_id, Memᴰ.head refl, ground (arith, q), refl))
          λ q.
            Ends-map (λ u f d m. there d q f m) (λ e c. (c.0, Memᴰ.tail c.1, c.2, c.3))
              (require_directions_exist-Ends alloc db)
      where
        there :
            (d : DirectionId)
            → not (is_some (find_direction x.direction_id db)) ≡ false
            → ((d : DirectionId)
                → Memᴰ d (map Alloc.direction_id alloc)
                → find_direction d db ≡ none
                → ⊥)
            → Memᴰ d (map Alloc.direction_id (x ∷ alloc))
            → find_direction d db ≡ none
            → ⊥
        there d q f (Memᴰ.head e) h =
            let gone = subst (λ y. find_direction y db ≡ none) e h in
            absurd (ground (arith, q, gone))
        there d q f (Memᴰ.tail m) h = f d m h

    pub adjust_fine :
        (id : RhythmId) (alloc : List Alloc) (tx : Tx)
        → Agrees w (live body_sha256 tx.tables)
        → w.ctx.rhythm_is_retired id ≡ some false
        → Judged w tx.tables (adjust_rhythm id alloc) (apply_adjust env now id alloc tx)
    unfolding apply_adjust
    adjust_fine id alloc tx a e =
        let db = tx.tables in
        let (from, known, legal) = open_rhythm (find_rhythm id db) (a.retired id false e) in
        Ends-bind (Ends-map (λ u f. f) (λ e c. inl c) (require_directions_exist-Ends alloc db))
          λ u f.
            rw (read_rhythm_known id db from known, legal)
              (Ends-map (λ next c. (c, λ e (d, m, gone, q). f d m gone)) (λ e c. inr c)
                (logs w _ _ (
                  Agrees-Extends a
                    (adjust-Extends body_sha256 id alloc now db (a.retired id false e)))))

    pub transition_fine :
        (id : TaskId) (to from : TaskStatus) (tx : Tx)
        → Agrees w (live body_sha256 tx.tables)
        → task_status w id ≡ some from
        → task_transition_allowed from to ≡ true
        → Judged
            (set_task w id to)
            tx.tables
            (transition_task id to)
            (apply_transition env now id to tx)
    unfolding apply_transition
    transition_fine id to from tx a known legal =
        let db = tx.tables in
        let there = a.task id from known in
        Ends-bind (Ends-map (λ u f. f) (λ e c. inl c) (require_task_week_open-Ends id db)) λ u f.
          rw (read_task_known id db from there, checked_ok from to legal)
            (Ends-map (λ next c. (c, λ e (h, q). f h)) (λ e c. inr c)
              (logs (set_task w id to) _ _ (
                set_status-Agrees body_sha256 id to now w db a
                  (is_some-column task_status_column (find_task id db) there))))

    pub insert_carried_fine :
        (id : TaskId) (to : WeekId) (source : TaskRow) (tx : Tx)
        → Agrees w (live body_sha256 tx.tables)
        → Still w IsConstraint (insert_carried env now id to source tx)
    unfolding insert_carried
    insert_carried_fine id to source tx a =
        Ends-bind (insert_task-Ends (carried_task _ to now source) tx.tables) λ db i.
          rw i.tables (logs w _ _ (Agrees-Extends a (with_task-Extends body_sha256 _ tx.tables)))
