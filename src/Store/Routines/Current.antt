-- ===== src/Store/Routines/Current.antt =====
-- src/store/repo.rs: the intents in the states that the operations reach.
use sin.Prelude.{
  String, ◌≡◌, ◌≢◌, refl, sym, ◌∙◌, ap, subst, Bool, true, Option, none, some, List, [], ◌∷◌,
  eq_refl, All,
}
use sin.Core.Types.{RoutineId, Routine, RoutineStatus}
use sin.Store.Json.{Value}
use sin.Store.Outbox.{pending, find_live, overwrite, fresh_row, OutboxRow, Table, is_live_for}
use sin.Store.Outbox.Live.{IsWellFormed, intent, find_live-upsert}
use sin.Store.Outbox.Formed.{
  mark_done-IsWellFormed, mark_retry-IsWellFormed, mark_failed-IsWellFormed,
}
use sin.Store.Errors.{ok}
use sin.Store.Routines.{Db, Draws, RoutineRow, find_routine, routine_dedup_key}
use sin.Store.Routines.Ops.{routine_of}
use sin.Store.Routines.Moves.{
  transition_routine, sync_kernel_suspended_routines, set_status, write_transition, intent_kind,
  intent_desired, clear_notices, set_notices,
}
use sin.Store.Routines.Mirror.{Tells, MirroredIn, intent_says}
use sin.Store.Routines.Rows.{
  find_routine-update_rows, find_routine-update_rows_other, UniqueRoutines, find_routine_id,
  update_rows-All, UniqueRoutines-update,
}
use sin.Store.Routines.Steps.{
  Step, Reach, created, updated, transitioned, asserted, orphaned, suspended, landed, put_off,
  given_up, start, onward, create_routine_ok, update_routine_ok, transition_routine_ok,
}
use sin.Store.Routines.Invariant.{Inv, done_mirrored, retry_mirrored, failed_mirrored}
use sin.Store.Routines.Preserve.{
  create-Inv, orphan-Inv, assert-Inv, transition-Inv, intent_at_status, found_self,
}
use sin.Store.Routines.Patch.{finish-Inv}

find_by_own_id :
    (id : RoutineId) (rows : List RoutineRow) {r : Routine}
    → find_routine id rows ≡ some r
    → find_routine r.id rows ≡ some r
find_by_own_id id rows {r} h = found_self id rows r h

-- notices are not part of what is mirrored
notices_rows :
    (now : String) (ids : List RoutineId) (rows : List RoutineRow) (outbox : Table)
    → UniqueRoutines rows
    → All (MirroredIn outbox) rows
    → UniqueRoutines (set_notices now ids rows) × All (MirroredIn outbox) (set_notices now ids rows)
notices_rows now [] rows outbox u m = (u, m)
notices_rows now (id ∷ ids) rows outbox u m =
    notices_rows now ids _ outbox (UniqueRoutines-update id _ rows (λ row e. refl) u) (
      update_rows-All (MirroredIn outbox) (MirroredIn outbox) id _ rows (λ row e p. p)
        (λ row ne p. p) m)

cleared_apart :
    (id : RoutineId) (rows : List RoutineRow)
    → All (λ x. id ≢ x.routine.id) rows
    → All (λ x. id ≢ x.routine.id) (clear_notices rows)
cleared_apart id [] a = tt
cleared_apart id (row ∷ rows) a = (a.0, cleared_apart id rows a.1)

cleared_rows :
    (rows : List RoutineRow) (outbox : Table)
    → UniqueRoutines rows
    → All (MirroredIn outbox) rows
    → UniqueRoutines (clear_notices rows) × All (MirroredIn outbox) (clear_notices rows)
cleared_rows [] outbox u m = (tt, tt)
cleared_rows (row ∷ rows) outbox u m =
    let (u', m') = cleared_rows rows outbox u.1 m.1 in
    ((cleared_apart row.routine.id rows u.0, u'), (m.0, m'))

suspend-Inv :
    (now : String) (ids : List RoutineId) (db : Db)
    → Inv db
    → Inv (sync_kernel_suspended_routines now ids db)
unfolding sync_kernel_suspended_routines
suspend-Inv now ids db i =
    let (u, m) = cleared_rows db.routines db.outbox i.unique i.mirrored in
    let (u', m') = notices_rows now ids (clear_notices db.routines) db.outbox u m in
    record { formed = i.formed; unique = u'; mirrored = m' }

module _ (parse_schedule parse_tz : String → Bool) where
  Step-Inv : {db db' : Db} → Step parse_schedule parse_tz db db' → Inv db → Inv db'
  unfolding routine_of
  Step-Inv (created d new db db' r fresh_id fresh h) i =
      subst Inv (create_routine_ok parse_schedule parse_tz d new db h)
        (create-Inv d (routine_of d new) db refl fresh_id fresh i)
  Step-Inv (updated d id patch db db' r names fresh h) i =
      let (current, e, open_, f) = update_routine_ok parse_schedule parse_tz d id patch db h in
      finish-Inv d patch current db (found_self id db.routines current e) open_ fresh i f
  Step-Inv (transitioned d id to db db' r fresh h) i =
      let (current, e, _, f) = transition_routine_ok d id to db h in
      subst Inv f (transition-Inv d current to db (found_self id db.routines current e) fresh i)
  Step-Inv (asserted d id db fresh) i = assert-Inv d id db fresh i
  Step-Inv (orphaned d id db fresh) i = orphan-Inv d id db fresh i
  Step-Inv (suspended now ids db) i = suspend-Inv now ids db i
  Step-Inv (landed now id version result db) i = record {
    formed = mark_done-IsWellFormed id version db.outbox i.formed now result;
    unique = i.unique;
    mirrored = done_mirrored db.routines db.outbox i.mirrored now id version result;
  }
  Step-Inv (put_off id version error next bump db) i = record {
    formed = mark_retry-IsWellFormed id version db.outbox i.formed error next bump;
    unique = i.unique;
    mirrored = retry_mirrored db.routines db.outbox i.mirrored id version error next bump;
  }
  Step-Inv (given_up id version kind error db) i = record {
    formed = mark_failed-IsWellFormed id version db.outbox i.formed kind error;
    unique = i.unique;
    mirrored = failed_mirrored db.routines db.outbox i.mirrored id version kind error;
  }

  Reach-Inv : {db : Db} → Reach parse_schedule parse_tz db → Inv db
  Reach-Inv (start areas directions) = record {
    formed = record { ids = tt; live = tt };
    unique = tt;
    mirrored = tt;
  }
  Reach-Inv (onward h s) = Step-Inv s (Reach-Inv h)

  -- In every state that the operations on routines, the reconciler's requests and the outcomes of the
  -- pump reach, in any order, with ids that are new when they are drawn: a pending or failed intent
  -- under the key of a routine says what the routine is now. It deletes the schedule of a retired
  -- routine, and otherwise upserts it with the routine's own cron, tz and whether it is active.
  pub live_intents_are_current :
      (db : Db)
      → Reach parse_schedule parse_tz db
      → All
          (λ row.
            All
              (λ q. is_live_for (routine_dedup_key row.routine.id) q ≡ true → Tells row.routine q)
              db.outbox)
          db.routines
  live_intents_are_current db h = (Reach-Inv h).mirrored

intent_is_pending :
    (id now kind key : String) (desired : Value) (o : Option OutboxRow)
    → (intent id now kind key desired o).status ≡ pending
unfolding overwrite fresh_row
intent_is_pending id now kind key desired none = refl
intent_is_pending id now kind key desired (some q) = refl

-- the routine with its new status
abbrev moved : Draws → RoutineStatus → Routine → Routine
moved d to r = record r { status = to; updated_at = d.now }

stored :
    (d : Draws) (to : RoutineStatus) (current : Routine) (db : Db)
    → find_routine current.id db.routines ≡ some current
    → (find_routine current.id (write_transition d current to db).routines
        ≡ some (moved d to current))
      × ((j : RoutineId)
          → current.id ≢ j
          → find_routine j (write_transition d current to db).routines ≡ find_routine j db.routines)
unfolding write_transition set_status
stored d to current db e = (
  find_routine-update_rows current.id _ (λ row. refl) (moved d to) db.routines (λ row. refl) e,
  λ j ne. find_routine-update_rows_other current.id _ (λ row. refl) j db.routines ne,
)

-- A transition of a routine that succeeds returns the routine with the new status, the routine that the
-- table has from then on; every other routine in the table is as before. Under the key of the routine
-- there is a pending intent that says what the routine now is. The outbox is well-formed before.
pub transition_is_queued :
    (d : Draws) (id : RoutineId) (to : RoutineStatus) (db db' : Db) (r : Routine)
    → IsWellFormed db.outbox
    → transition_routine d id to db ≡ ok (r, db')
    → (r.status ≡ to)
      × (find_routine id db'.routines ≡ some r)
      × ((j : RoutineId) → id ≢ j → find_routine j db'.routines ≡ find_routine j db.routines)
      × ((q : OutboxRow) × (find_live (routine_dedup_key id) db'.outbox ≡ some q)
          × (q.status ≡ pending)
          × Tells r q)
unfolding write_transition set_status
transition_is_queued d id to db db' r wf h =
    let (current, e, er, ew) = transition_routine_ok d id to db h in
    let own : current.id ≡ id = find_routine_id id db.routines e in
    let kept = stored d to current db (find_by_own_id id db.routines e) in
    let key : String = routine_dedup_key current.id in
    let old : Option OutboxRow = find_live key db.outbox in
    let q : OutboxRow =
      intent d.outbox_id d.outbox_now (intent_kind to) key (intent_desired to current) old in
    let says =
      intent_says d.outbox_id d.outbox_now (intent_kind to) current.id (intent_desired to current)
        db.outbox old in
    let put : find_live key (write_transition d current to db).outbox ≡ some q =
      rw (eq_refl key) at (
        find_live-upsert d.outbox_id d.outbox_now (intent_kind to) key key
          (intent_desired to current) db.outbox wf) in
    (
      ap (λ x. x.status) (sym er),
      subst (λ x. find_routine id x.routines ≡ some r) ew
          (subst (λ k. find_routine k (write_transition d current to db).routines ≡ some r) own
            (kept.0 ∙ ap some er)),
      (λ j ne.
          subst (λ x. find_routine j x.routines ≡ find_routine j db.routines) ew
            (kept.1 j (λ same. ne (sym own ∙ same)))),
      (
        q,
        subst (λ x. find_live (routine_dedup_key id) x.outbox ≡ some q) ew
            (subst
              (λ j.
                find_live (routine_dedup_key j) (write_transition d current to db).outbox ≡ some q)
              own put),
        intent_is_pending d.outbox_id d.outbox_now (intent_kind to) key (intent_desired to current)
            old,
        subst (λ x. Tells x q) er (says.0, says.1 ∙ intent_at_status to d.now current),
      ),
    )
