-- ===== src/Store/ApplyOp/Effects.antt =====
-- src/store/repo.rs: what the statements do when they succeed, and how they fail.
use sin.Prelude.{
  String, ◌≡◌, refl, true, false, [], ◌∷◌, ◌++◌, suc, arith, Bool-cases, inl, inr, not,
}
use sin.Core.Types.{Area, Direction}
use sin.Store.Errors.{
  StoreError, unique_failed, foreign_key_failed, check_failed, Event, Ends, returns, fails,
  Ends-fail_if,
}
use sin.Store.Rows.{is_some, select}
use sin.Store.Tables.{
  TaskRow, Tables, Env, Tx, find_task, find_direction, is_known, triage_via_allowed,
}
use sin.Store.Tables.Statements.{
  is_carried, slug_of, insert_area, insert_direction, insert_task, references_hold, append_event,
  log_event, event_id,
}

pub data IsConstraint : StoreError → Type 0 where
  is_unique : (table : String) → IsConstraint (unique_failed table)
  is_foreign_key : (table : String) → IsConstraint (foreign_key_failed table)
  is_check : (table : String) → IsConstraint (check_failed table)

-- the transaction after an event
abbrev pub with_event : Event → Tables → Tables
with_event e db = record db { events = db.events ++ (e ∷ []) }

abbrev pub logged : Env → (String → Event) → Tx → Tx
logged env columns tx = record {
  tables = with_event (columns (env.ulid tx.calls)) tx.tables;
  calls = suc tx.calls;
  event_ids = tx.event_ids ++ (env.ulid tx.calls ∷ []);
}

pub log_event-Ends :
    (env : Env) (columns : String → Event) (tx : Tx)
    → Ends (λ next. next ≡ logged env columns tx) IsConstraint (log_event env columns tx)
unfolding log_event append_event
log_event-Ends env columns tx =
    elim (Bool-cases (is_some (select event_id (env.ulid tx.calls) tx.tables.events))) [
      | inl e ↦ rw e (fails (unique_failed "sin90_events") (is_unique "sin90_events"))
      | inr e ↦ rw e (returns (logged env columns tx) refl)
    ]

abbrev pub with_area : Area → Tables → Tables
with_area area db = record db { areas = db.areas ++ (area ∷ []) }

abbrev pub with_direction : Direction → Tables → Tables
with_direction direction db = record db { directions = db.directions ++ (direction ∷ []) }

abbrev pub with_task : TaskRow → Tables → Tables
with_task row db = record db { tasks = db.tasks ++ (row ∷ []) }

pub insert_area-Ends :
    (area : Area) (db : Tables)
    → Ends (λ next. next ≡ with_area area db) IsConstraint (insert_area area db)
unfolding insert_area
insert_area-Ends area db =
    Ends-fail_if (is_some (select Area.id area.id db.areas)) _ _ (λ e. is_unique "sin90_areas")
      λ e.
        Ends-fail_if (is_some (select slug_of area.slug db.areas)) _ _
          (λ e. is_unique "sin90_areas") λ e. returns (with_area area db) refl

pub insert_direction-Ends :
    (direction : Direction) (db : Tables)
    → Ends (λ next. next ≡ with_direction direction db) IsConstraint (insert_direction direction db)
unfolding insert_direction
insert_direction-Ends direction db =
    Ends-fail_if (is_some (find_direction direction.id db)) _ _ (λ e. is_unique "sin90_directions")
      λ e.
        Ends-fail_if (not (is_known Area.id direction.area_id db.areas)) _ _
          (λ e. is_foreign_key "sin90_directions") λ e. returns (with_direction direction db) refl

-- what holds of a task that was inserted
pub record IsInserted (row : TaskRow) (db next : Tables) : Type 0 where
  pub tables : next ≡ with_task row db
  pub fresh : is_some (find_task row.task.id db) ≡ false
  pub single : is_carried row.task.carried_from db.tasks ≡ false
  pub references : references_hold row.task (db.tasks ++ (row ∷ [])) db ≡ true

pub insert_task-Ends :
    (row : TaskRow) (db : Tables) → Ends (IsInserted row db) IsConstraint (insert_task row db)
unfolding insert_task
insert_task-Ends row db =
    Ends-fail_if (not (triage_via_allowed row.triage_via)) _ _ (λ e. is_check "sin90_tasks")
      λ _.
        Ends-fail_if (is_some (find_task row.task.id db)) _ _ (λ e. is_unique "sin90_tasks")
          λ fresh.
            Ends-fail_if (is_carried row.task.carried_from db.tasks) _ _
              (λ e. is_unique "sin90_tasks")
              λ single.
                Ends-fail_if (not (references_hold row.task (db.tasks ++ (row ∷ [])) db)) _ _
                  (λ e. is_foreign_key "sin90_tasks")
                  λ holds. returns (with_task row db) (record {
                    tables = refl;
                    fresh = fresh;
                    single = single;
                    references = ground arith;
                  })
