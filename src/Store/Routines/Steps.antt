-- ===== src/Store/Routines/Steps.antt =====
-- src/store/repo.rs: the writes to the outbox and to the routines, as steps in any order, and what an
-- operation that succeeds has written.
use sin.Prelude.{
  ℕ, String, ◌≡◌, ◌≢◌, Bool, false, Option, none, some, List, [], arith, All, Bool-cases,
  Option-cases, inl, inr,
}
use sin.Core.Types.{RoutineId, Routine, NewRoutine, RoutinePatch, RoutineStatus}
use sin.Core.Transitions.{routine_is_terminal}
use sin.Store.Outbox.{outbox_mark_done, outbox_mark_retry, outbox_mark_failed}
use sin.Store.Outbox.Formed.{IsFreshId}
use sin.Store.Errors.{StoreError, ok, err, ◌>>=◌, >>=-eq-ok, found, not_found}
use sin.Store.Routines.{Db, Draws, find_routine, routine_kernel_key}
use sin.Store.Routines.Ops.{
  check_new, check_patch, update_found, create_routine, update_routine, routine_of, insert_routine,
  patched, changed_fields, finish_update,
}
use sin.Store.Routines.Moves.{
  transition_routine, outbox_enqueue_upsert_for_routine, outbox_enqueue_delete_for_orphan,
  sync_kernel_suspended_routines, write_transition,
}

module _ (parse_schedule parse_tz : String → Bool) where
  pub data Step : Db → Db → Type 0 where
    -- an id that `ulid()` returns is new
    created :
        (d : Draws) (new : NewRoutine) (db db' : Db) (r : Routine)
        → All (λ row. d.id ≢ row.routine.id) db.routines
        → IsFreshId d.outbox_id db.outbox
        → create_routine parse_schedule parse_tz d new db ≡ ok (r, db')
        → Step db db'
    updated :
        (d : Draws) (id : RoutineId) (patch : RoutinePatch) (db db' : Db) (r : Routine)
        (changed : List String)
        → IsFreshId d.outbox_id db.outbox
        → update_routine parse_schedule parse_tz d id patch db ≡ ok ((r, changed), db')
        → Step db db'
    transitioned :
        (d : Draws) (id : RoutineId) (to : RoutineStatus) (db db' : Db) (r : Routine)
        → IsFreshId d.outbox_id db.outbox
        → transition_routine d id to db ≡ ok (r, db')
        → Step db db'
    asserted :
        (d : Draws) (id : RoutineId) (db : Db)
        → IsFreshId d.outbox_id db.outbox
        → Step db (outbox_enqueue_upsert_for_routine d id db)
    -- for a key that is the one of the routine
    orphaned :
        (d : Draws) (id : RoutineId) (db : Db)
        → IsFreshId d.outbox_id db.outbox
        → Step db (outbox_enqueue_delete_for_orphan d id (routine_kernel_key id) db)
    suspended :
        (now : String) (ids : List RoutineId) (db : Db)
        → Step db (sync_kernel_suspended_routines now ids db)
    -- the outcomes that the pump writes back
    landed :
        (now id : String) (version : ℕ) (result : Option String) (db : Db)
        → Step db (record db { outbox = outbox_mark_done now id version result db.outbox })
    put_off :
        (id : String) (version : ℕ) (error next : String) (bump : Bool) (db : Db)
        → Step db (record db { outbox = outbox_mark_retry id version error next bump db.outbox })
    given_up :
        (id : String) (version : ℕ) (kind error : String) (db : Db)
        → Step db (record db { outbox = outbox_mark_failed id version kind error db.outbox })

  pub data Reach : Db → Type 0 where
    start :
        (areas directions : List String)
        → Reach (record {
          areas = areas;
          directions = directions;
          routines = [];
          events = [];
          outbox = [];
          notified = false;
        })
    onward : {db db' : Db} → Reach db → Step db db' → Reach db'

  pub create_routine_ok :
      (d : Draws) (new : NewRoutine) (db : Db) {r : Routine} {db' : Db}
      → create_routine parse_schedule parse_tz d new db ≡ ok (r, db')
      → insert_routine d (routine_of d new) db ≡ db'
  unfolding create_routine
  create_routine_ok d new db h =
      let r : Routine = routine_of d new in
      let db' : Db = insert_routine d r db in
      let (_, _, e) = >>=-eq-ok (check_new parse_schedule parse_tz new db) (λ _. ok (r, db')) h in
      same_db e
    where
      same_db : {x y : Routine × Db} → ok x ≡ ok y → x.1 ≡ y.1
      same_db h = cc

  found_ok : (o : Option Routine) (e : StoreError) {r : Routine} → found o e ≡ ok r → o ≡ some r
  found_ok none e h = cc
  found_ok (some a) e h = cc

  update_found_ok :
      (d : Draws) (patch : RoutinePatch) (db : Db) (current : Routine)
      {out : (Routine × List String) × Db}
      → update_found parse_schedule parse_tz d patch db current ≡ ok out
      → (routine_is_terminal current.status ≡ false)
        × (finish_update d current
              (record (patched patch current) { updated_at = d.now })
              (changed_fields current (patched patch current))
              db
            ≡ ok out)
  unfolding update_found
  update_found_ok d patch db current h = elim (Bool-cases (routine_is_terminal current.status)) [
    | inl closed ↦ absurd (refused (rw closed at h))
    | inr live ↦ (live, rw live at h)
  ]
    where
      refused : {A : Type 0} {a : A} {e : StoreError} → err e ≡ ok a → ⊥
      refused h = cc

  pub update_routine_ok :
      (d : Draws) (id : RoutineId) (patch : RoutinePatch) (db : Db) {r : Routine}
      {changed : List String} {db' : Db}
      → update_routine parse_schedule parse_tz d id patch db ≡ ok ((r, changed), db')
      → (current : Routine) × (find_routine id db.routines ≡ some current)
        × (routine_is_terminal current.status ≡ false)
        × (finish_update d current
              (record (patched patch current) { updated_at = d.now })
              (changed_fields current (patched patch current))
              db
            ≡ ok ((r, changed), db'))
  unfolding update_routine
  update_routine_ok d id patch db h =
      let (_, _, h1) =
        >>=-eq-ok (check_patch parse_schedule parse_tz patch)
          (λ _.
            found (find_routine id db.routines) (not_found "routine" id)
            >>= update_found parse_schedule parse_tz d patch db)
          h in
      let (current, e, h2) =
        >>=-eq-ok (found (find_routine id db.routines) (not_found "routine" id))
          (update_found parse_schedule parse_tz d patch db) h1 in
      let (open_, h3) = update_found_ok d patch db current h2 in
      (current, found_ok (find_routine id db.routines) (not_found "routine" id) e, open_, h3)

pub transition_routine_ok :
    (d : Draws) (id : RoutineId) (to : RoutineStatus) (db : Db) {r : Routine} {db' : Db}
    → transition_routine d id to db ≡ ok (r, db')
    → (current : Routine) × (find_routine id db.routines ≡ some current)
      × (record current { status = to; updated_at = d.now } ≡ r)
      × (write_transition d current to db ≡ db')
unfolding transition_routine
transition_routine_ok d id to db h = elim (Option-cases (find_routine id db.routines)) [
  | inl e ↦ ground (arith, e)
  | inr (current, e) ↦ (current, e, ground arith, ground arith)
]
