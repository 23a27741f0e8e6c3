-- ===== src/Store/Routines/Moves.antt =====
-- src/store/repo.rs: `transition_routine`, and the operations by which the reconciler puts intents into
-- the outbox and writes suspension notices.
use sin.Prelude.{String, Bool, false, not, Option, none, some, List, [], ◌∷◌, ◌||◌, if◌then◌else◌}
use sin.Core.Types.{RoutineId, Routine, RoutineStatus}
use sin.Core.Transitions.{check_routine_transition, routine_is_terminal}
use sin.Store.Json.{Value, str, obj, field, end}
use sin.Store.Outbox.{already_pending}
use sin.Store.Errors.{not_found, StoreResult, ok, ◌>>=◌, ◌>>◌, found, transition_checked}
use sin.Store.Routines.{
  RoutineRow, Db, Draws, find_routine, update_rows, append_event, routine_dedup_key,
  routine_outbox_upsert_desired, routine_outbox_delete_desired, status_wire, is_active, enqueue,
}
use sin.Store.Routines.Ops.{routine_event}

abbrev pub event_kind : RoutineStatus → String
event_kind RoutineStatus.paused = "paused"
event_kind RoutineStatus.active = "resumed"
event_kind RoutineStatus.retired = "retired"

-- what the kernel is to be told of a routine
abbrev pub intent_kind : RoutineStatus → String
intent_kind RoutineStatus.retired = "scheduler.delete"
intent_kind _ = "scheduler.upsert"

unfoldable pub intent_desired : RoutineStatus → Routine → Value
intent_desired RoutineStatus.retired r = routine_outbox_delete_desired r.id
intent_desired to r = routine_outbox_upsert_desired r.id r.cron r.tz (is_active to)

-- the `UPDATE` of the status and its event
unfoldable pub set_status : Draws → Routine → RoutineStatus → Db → Db
set_status d current to db =
    append_event
      (routine_event d current.id (event_kind to) (some (status_wire current.status))
        (some (status_wire to)) (obj (field "routine_id" (str current.id) end)))
      (record db {
        routines =
            update_rows current.id
              (λ row. record row {
                routine = record row.routine { status = to; updated_at = d.now };
              })
              db.routines;
      })

unfoldable pub write_transition : Draws → Routine → RoutineStatus → Db → Db
write_transition d current to db =
    enqueue d (intent_kind to) current.id (intent_desired to current) (set_status d current to db)

unfoldable pub transition_routine :
    Draws → RoutineId → RoutineStatus → Db → StoreResult (Routine × Db)
transition_routine d id to db = do
  current ← found (find_routine id db.routines) (not_found "routine" id)
  transition_checked (check_routine_transition current.status to)
  ok (record current { status = to; updated_at = d.now }, write_transition d current to db)

-- the two by which the reconciler asks; none of their branches is an error
unfoldable pub assert_found : Draws → RoutineId → Option Routine → Db → Db
assert_found d id none db = db
assert_found d id (some r) db =
    if routine_is_terminal r.status || already_pending (routine_dedup_key id) db.outbox
    then db
    else enqueue d "scheduler.upsert" id
        (routine_outbox_upsert_desired id r.cron r.tz (is_active r.status)) db

unfoldable pub outbox_enqueue_upsert_for_routine : Draws → RoutineId → Db → Db
unfolding assert_found
outbox_enqueue_upsert_for_routine d id db = assert_found d id (find_routine id db.routines) db

abbrev pub is_wanted : Option Routine → Bool
is_wanted none = false
is_wanted (some r) = not (routine_is_terminal r.status)

unfoldable pub outbox_enqueue_delete_for_orphan :
    Draws → RoutineId → (kernel_key : String) → Db → Db
outbox_enqueue_delete_for_orphan d id kernel_key db =
    if is_wanted (find_routine id db.routines) || already_pending (routine_dedup_key id) db.outbox
    then db
    else enqueue d "scheduler.delete" id (obj (field "key" (str kernel_key) end)) db

-- every notice is cleared, then those of the given routines are set one by one
abbrev pub clear_notices : List RoutineRow → List RoutineRow
clear_notices [] = []
clear_notices (row ∷ rows) = record row { kernel_suspended_at = none } ∷ clear_notices rows

abbrev pub set_notices : (now : String) → List RoutineId → List RoutineRow → List RoutineRow
set_notices now [] rows = rows
set_notices now (id ∷ ids) rows =
    set_notices now ids (update_rows id (λ row. record row { kernel_suspended_at = some now }) rows)

unfoldable pub sync_kernel_suspended_routines : (now : String) → List RoutineId → Db → Db
sync_kernel_suspended_routines now ids db = record db {
  routines = set_notices now ids (clear_notices db.routines);
}
