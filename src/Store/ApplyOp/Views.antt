-- ===== src/Store/ApplyOp/Views.antt =====
-- src/store/repo.rs: how the writes of `apply_op` change what the tables answer.
use sin.Prelude.{
  ℕ, String, ◌≡◌, refl, sym, ◌∙◌, ap, Bool, true, false, Option, none, some, List, ◌==◌,
  if◌then◌else◌, eq_iff, Bool-cases, inl, inr,
}
use sin.Core.Types.{TaskStatus, DirectionId, Area, Direction, Review, Rhythm, Alloc}
use sin.Core.Proposal.Errors.{ReviewSnap}
use sin.Core.Proposal.Working.{
  ValidationCtx, Working, task_status, set_task, task_direction, set_task_direction,
  review_body_hash, set_review_hash, task_status-set_task, task_direction-set_task_direction,
  review_body_hash-set_review_hash,
}
use sin.Store.Errors.{Event, Ends, Ends-map}
use sin.Store.Rows.{
  is_some, column, update, select-update, column-update, is_some-column, column-update_other,
}
use sin.Store.Tables.{TaskRow, Tables, Env, Tx, task_key, find_task, find_rhythm, find_review}
use sin.Store.Tables.Statements.{log_event, set_status}
use sin.Store.ApplyOp.Change.{set_sort_key, adjust, set_direction, set_body, with_tasks}
use sin.Store.ApplyOp.Effects.{IsConstraint, log_event-Ends, with_area, with_direction, with_task}
use sin.Store.ApplyOp.Agrees.{Agrees, Extends, column-insert}
use sin.Store.Proposals.Snapshot.{
  live_ctx, task_status_column, task_direction_column, direction_status_column, is_retired,
  review_column,
}

beside :
    {A : Type 0} (b : Bool) (x s : A) (o p : Option A)
    → (if b then some x else o) ≡ some s
    → (o ≡ some s → p ≡ some s)
    → (if b then some x else p) ≡ some s
beside true x s o p e f = e
beside false x s o p e f = f e

module _ (body_sha256 : String → String) where
  abbrev pub live : Tables → ValidationCtx
  live db = live_ctx body_sha256 db

  pub log_keeps :
      (P : ValidationCtx → Type 0) (env : Env) (columns : String → Event) (tx : Tx)
      → P (live tx.tables)
      → Ends (λ next. P (live next.tables)) IsConstraint (log_event env columns tx)
  log_keeps P env columns tx h =
      Ends-map (λ next e. rw e h) (λ reason q. q) (log_event-Ends env columns tx)

  pub with_area-Extends : (area : Area) (db : Tables) → Extends (live db) (live (with_area area db))
  with_area-Extends area db = record {
    task = λ id s e. e;
    direction = λ id s e. e;
    review = λ id s e. e;
    week = λ id s e. e;
    retired = λ id s e. e;
    target = λ id s e. e;
  }

  pub with_direction-Extends :
      (direction : Direction) (db : Tables) → Extends (live db) (live (with_direction direction db))
  with_direction-Extends direction db = record {
    task = λ id s e. e;
    direction = λ id s e. e;
    review = λ id s e. e;
    week = λ id s e. e;
    retired = λ id s e. e;
    target =
        λ id s e. column-insert Direction.id direction_status_column id direction db.directions s e;
  }

  pub with_task-Extends :
      (row : TaskRow) (db : Tables) → Extends (live db) (live (with_task row db))
  with_task-Extends row db = record {
    task = λ id s e. column-insert task_key task_status_column id row db.tasks s e;
    direction = λ id s e. column-insert task_key task_direction_column id row db.tasks s e;
    review = λ id s e. e;
    week = λ id s e. e;
    retired = λ id s e. e;
    target = λ id s e. e;
  }

  pub sort_key-Extends :
      (id : String) (place : ℕ) (now : String) (db : Tables)
      → Extends
          (live db)
          (live (with_tasks (update task_key id (set_sort_key place now) db.tasks) db))
  sort_key-Extends id place now db = record {
    task = λ j s e.
        column-update_other task_key task_status_column (set_sort_key place now) id j db.tasks
          (λ row. refl) (λ row. refl)
        ∙ e;
    direction = λ j s e.
        column-update_other task_key task_direction_column (set_sort_key place now) id j db.tasks
          (λ row. refl) (λ row. refl)
        ∙ e;
    review = λ j s e. e;
    week = λ j s e. e;
    retired = λ j s e. e;
    target = λ j s e. e;
  }

  pub set_status-Agrees :
      (id : String) (to : TaskStatus) (now : String) (w : Working) (db : Tables)
      → Agrees w (live db)
      → is_some (find_task id db) ≡ true
      → Agrees
          (set_task w id to)
          (live (with_tasks (update task_key id (set_status to now) db.tasks) db))
  unfolding set_task task_direction review_body_hash
  set_status-Agrees id to now w db a there = record {
    task = λ j s e.
        column-update task_key task_status_column to (set_status to now) id j db.tasks (λ row. refl)
          (λ row. refl) there
        ∙ beside (id == j) to s (task_status w j) (column task_status_column (find_task j db))
            (sym (task_status-set_task w id j to) ∙ e) (a.task j s);
    direction = λ j s e.
        column-update_other task_key task_direction_column (set_status to now) id j db.tasks
          (λ row. refl) (λ row. refl)
        ∙ a.direction j s e;
    review = a.review;
    week = a.week;
    retired = a.retired;
    target = a.target;
  }

  pub set_direction-Agrees :
      (source : String) (id : String) (d : DirectionId) (now : String) (w : Working) (db : Tables)
      → Agrees w (live db)
      → is_some (find_task id db) ≡ true
      → Agrees
          (set_task_direction w id (some d))
          (live (with_tasks (update task_key id (set_direction source d now) db.tasks) db))
  unfolding set_task_direction task_status review_body_hash
  set_direction-Agrees source id d now w db a there = record {
    task = λ j s e.
        column-update_other task_key task_status_column (set_direction source d now) id j db.tasks
          (λ row. refl) (λ row. refl)
        ∙ a.task j s e;
    direction = λ j s e.
        column-update task_key task_direction_column (some d) (set_direction source d now) id j
          db.tasks (λ row. refl) (λ row. refl) there
        ∙ beside (id == j) (some d) s (task_direction w j)
            (column task_direction_column (find_task j db))
            (sym (task_direction-set_task_direction w id j (some d)) ∙ e) (a.direction j s);
    review = a.review;
    week = a.week;
    retired = a.retired;
    target = a.target;
  }

  abbrev with_digest : String → ReviewSnap → ReviewSnap
  with_digest body r = record { status = r.status; body_sha256 = body_sha256 body }

  column-set_body :
      (body now : String) (db : Tables) (o : Option Review) (r : ReviewSnap)
      → column (review_column body_sha256 db) o ≡ some r
      → column (review_column body_sha256 db) (column (set_body body now) o)
        ≡ some (with_digest body r)
  column-set_body body now db none r e = absurd (none-some e)
    where
      none-some : none ≡ some r → ⊥
      none-some h = cc
  column-set_body body now db (some row) r e =
      ap (λ x. some (with_digest body x)) (some-injective e)
    where
      some-injective : {x : ReviewSnap} → some x ≡ some r → x ≡ r
      some-injective h = cc

  set_body-review :
      (id : String) (body now : String) (w : Working) (db : Tables)
      → Agrees w (live db)
      → (j : String) (s : ReviewSnap) → w.ctx.review_snap j ≡ some s
      → (r : ReviewSnap) × ((live (record db {
        reviews = update Review.id id (set_body body now) db.reviews;
      })).review_snap
            j
          ≡ some r)
        × (r.status ≡ s.status)
        × (review_body_hash (set_review_hash w id (body_sha256 body)) j ≡ some r.body_sha256)
  set_body-review id body now w db a j s e =
      let (r, f, p, q) = a.review j s e in
      elim (Bool-cases (id == j)) [
        | inl same ↦ (
          with_digest body r,
          rw (select-update Review.id (set_body body now) id j db.reviews (λ row. refl), same)
              (column-set_body body now db (find_review j db) r f),
          p,
          rw (review_body_hash-set_review_hash w id j (body_sha256 body), same) refl,
        )
        | inr other ↦ (
          r,
          rw (select-update Review.id (set_body body now) id j db.reviews (λ row. refl), other) f,
          p,
          rw (review_body_hash-set_review_hash w id j (body_sha256 body), other) q,
        )
      ]

  pub set_body-Agrees :
      (id : String) (body now : String) (w : Working) (db : Tables)
      → Agrees w (live db)
      → Agrees
          (set_review_hash w id (body_sha256 body))
          (live (record db { reviews = update Review.id id (set_body body now) db.reviews }))
  unfolding set_review_hash task_status task_direction
  set_body-Agrees id body now w db a = record {
    task = a.task;
    direction = a.direction;
    review = set_body-review id body now w db a;
    week = a.week;
    retired = a.retired;
    target = a.target;
  }

  pub adjust-Extends :
      (id : String) (alloc : List Alloc) (now : String) (db : Tables)
      → column is_retired (find_rhythm id db) ≡ some false
      → Extends
          (live db)
          (live (record db { rhythms = update Rhythm.id id (adjust alloc now) db.rhythms }))
  adjust-Extends id alloc now db open_ = record {
    task = λ j s e. e;
    direction = λ j s e. e;
    review = λ j s e. e;
    week = λ j s e. e;
    retired = λ j s e.
        column-update Rhythm.id is_retired false (adjust alloc now) id j db.rhythms (λ row. refl)
          (λ row. refl) (is_some-column is_retired (find_rhythm id db) open_)
        ∙ same_answer j s e;
    target = λ j s e. e;
  }
    where
      same_answer :
          (j : String) (s : Bool)
          → column is_retired (find_rhythm j db) ≡ some s
          → (if id == j then some false else column is_retired (find_rhythm j db)) ≡ some s
      same_answer j s e = elim (Bool-cases (id == j)) [
        | inl q ↦
            rw q
              (sym open_ ∙ ap (λ x. column is_retired (find_rhythm x db)) ((eq_iff id j).0 q) ∙ e)
        | inr q ↦ rw q e
      ]
