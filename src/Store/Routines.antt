-- ===== src/Store/Routines.antt =====
-- src/store/repo.rs: the routines and their events with the outbox. An
-- operation that fails changes nothing, since its transaction is rolled back; one that succeeds gives
-- its result and the next state of the database.
pub mod Ops
pub mod Moves
pub mod Keys
pub mod Mirror
pub mod Rows
pub mod Steps
pub mod Invariant
pub mod Preserve
pub mod Patch
pub mod Current
use Prim.Native.String.{◌++◌}
use sin.Prelude.{
  ℕ, String, ◌≡◌, refl, Bool, true, false, ◌&&◌, ◌||◌, not, Option, none, some, List, [], ◌∷◌, ◌==◌,
  eqb, if◌then◌else◌, is_empty,
}
use sin.Prelude.Text.{contains}
use sin.Prelude.Ascii.{trim, to_ascii_lowercase}
use sin.Core.Types.{
  AreaId, DirectionId, RoutineId, Routine, NewRoutine, RoutinePatch, RoutineStatus, RoutineKind,
  active, paused, retired,
}
use sin.Core.Transitions.{TransitionError, Checked, check_routine_transition, routine_is_terminal}
use sin.Core.Cron.{CronError, validate_cron}
use sin.Store.Errors.{
  Fault, StoreError, not_found, invalid, not_positive, StoreResult, ok, err, ◌>>=◌, fail_if, Event,
}
use sin.Store.Json.{Value, str, bool, num, arr, obj, field, end, opt_str, opt_num, strings}
use sin.Store.Outbox.{Table, upsert_outbox, already_pending}

pub record RoutineRow : Type 0 where
  pub routine : Routine
  pub kernel_suspended_at : Option String

-- the tables that these operations use, the events with the latest first, and the permit of `Notify`
pub record Db : Type 0 where
  pub areas : List AreaId
  pub directions : List DirectionId
  pub routines : List RoutineRow
  pub events : List Event
  pub outbox : Table
  pub notified : Bool

-- what `ulid()` and `now_iso8601()` return in the course of one operation
pub record Draws : Type 0 where
  pub id : String
  pub now : String
  pub event_id : String
  pub outbox_id : String
  pub outbox_now : String

unfoldable pub find_routine : String → List RoutineRow → Option Routine
find_routine id [] = none
find_routine id (row ∷ rows) =
    let rest = find_routine id rows in if row.routine.id == id then some row.routine else rest

-- `UPDATE sin90_routines SET ... WHERE id = ?`
unfoldable pub update_rows : String → (RoutineRow → RoutineRow) → List RoutineRow → List RoutineRow
update_rows id f [] = []
update_rows id f (row ∷ rows) =
    let rest = update_rows id f rows in if row.routine.id == id then f row ∷ rest else row ∷ rest

abbrev pub append_event : Event → Db → Db
append_event e db = record db { events = e ∷ db.events }

unfoldable pub routine_dedup_key : RoutineId → String
routine_dedup_key id = "routine:" ++ id

unfoldable pub routine_kernel_key : RoutineId → String
routine_kernel_key id = "routine." ++ to_ascii_lowercase id

unfoldable pub routine_outbox_upsert_desired :
    RoutineId → (cron tz : String) → (enabled : Bool) → Value
unfolding routine_kernel_key
routine_outbox_upsert_desired id cron tz enabled = obj (
    field "key" (str (routine_kernel_key id)) (
      field "spec" (obj (field "cron" (str cron) (field "tz" (str tz) end)))
        (field "enabled" (bool enabled) end)))

unfoldable pub routine_outbox_delete_desired : RoutineId → Value
unfolding routine_kernel_key
routine_outbox_delete_desired id = obj (field "key" (str (routine_kernel_key id)) end)

-- `to_wire` of a status and of a kind
abbrev pub status_wire : RoutineStatus → String
status_wire RoutineStatus.active = "active"
status_wire RoutineStatus.paused = "paused"
status_wire RoutineStatus.retired = "retired"

abbrev pub kind_wire : RoutineKind → String
kind_wire RoutineKind.deep_work = "deep_work"
kind_wire RoutineKind.exercise = "exercise"
kind_wire RoutineKind.review = "review"
kind_wire RoutineKind.read = "read"
kind_wire RoutineKind.other = "other"

abbrev pub is_active : RoutineStatus → Bool
is_active RoutineStatus.active = true
is_active _ = false

abbrev pub check_positive_target : Option ℕ → String → StoreResult (Unit {0})
check_positive_target (some v) name = fail_if (eqb v 0) (invalid (not_positive name))
check_positive_target none name = ok tt

abbrev pub require_exists : String → Option String → List String → StoreResult (Unit {0})
require_exists entity none ids = ok tt
require_exists entity (some id) ids = fail_if (not (contains id ids)) (not_found entity id)

-- one row of the outbox, written in the transaction of the caller, and the notification after it
abbrev pub enqueue : Draws → (kind : String) → RoutineId → Value → Db → Db
enqueue d kind id desired db = record db {
  outbox = upsert_outbox d.outbox_id d.outbox_now kind (routine_dedup_key id) desired db.outbox;
  notified = true;
}
