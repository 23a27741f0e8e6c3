-- ===== src/Store/Routines/Ops.antt =====
-- src/store/repo.rs: `create_routine` and `update_routine`. `validate_tz` is the parameter `parse_tz`:
-- whether the crate chrono-tz knows the name.
use sin.Prelude.{
  ℕ, String, Bool, true, false, not, Option, none, some, List, [], ◌∷◌, ◌==◌, ◌||◌, eqb,
  if◌then◌else◌, is_empty, ◌++◌,
}
use sin.Prelude.Text.{contains}
use sin.Prelude.Ascii.{trim}
use sin.Core.Types.{RoutineId, Routine, NewRoutine, RoutinePatch, RoutineStatus}
use sin.Core.Transitions.{routine_is_terminal}
use sin.Core.Cron.{validate_cron}
use sin.Store.Json.{Value, str, arr, obj, field, end, opt_str, opt_num, strings}
use sin.Store.Errors.{
  not_found, conflict, invalid, blank_title, empty_tz, bad_cron, unknown_tz, StoreResult, ok, err,
  ◌>>=◌, ◌>>◌, fail_if, found, Event,
}
use sin.Store.Routines.{
  Db, Draws, find_routine, update_rows, append_event, routine_outbox_upsert_desired, status_wire,
  kind_wire, is_active, check_positive_target, require_exists, enqueue,
}

abbrev pub unwrap_or {ℓ} : {A : Type ℓ} → Option A → A → A
unwrap_or none d = d
unwrap_or (some a) d = a

-- the shape that an `Event` of a routine has
abbrev pub routine_event :
    Draws → RoutineId → String → Option String → Option String → Value → Event
routine_event d id kind from to payload = record {
  id = d.event_id;
  entity = "routine";
  entity_id = id;
  kind = kind;
  from_state = from;
  to_state = to;
  payload = payload;
  at = d.now;
}

abbrev created_payload : Routine → Value
created_payload r = obj (
    field "routine_id" (str r.id) (
      field "area_id" (opt_str r.area_id) (
        field "direction_id" (opt_str r.direction_id) (
          field "title" (str r.title) (
            field "kind" (str (kind_wire r.kind)) (
              field "cron" (str r.cron) (
                field "tz" (str r.tz) (
                  field "target_count" (opt_num r.target_count) (
                    field "target_minutes" (opt_num r.target_minutes)
                      (field "status" (str "active") end))))))))))

-- the whole routine, and the fields that changed
abbrev updated_payload : Routine → List String → Value
updated_payload r changed = obj (
    field "id" (str r.id) (
      field "area_id" (opt_str r.area_id) (
        field "direction_id" (opt_str r.direction_id) (
          field "title" (str r.title) (
            field "kind" (str (kind_wire r.kind)) (
              field "cron" (str r.cron) (
                field "tz" (str r.tz) (
                  field "target_count" (opt_num r.target_count) (
                    field "target_minutes" (opt_num r.target_minutes) (
                      field "status" (str (status_wire r.status)) (
                        field "created_at" (str r.created_at) (
                          field "updated_at" (str r.updated_at)
                            (field "changed" (arr (strings changed)) end)))))))))))))

abbrev pub same_target : Option ℕ → Option ℕ → Bool
same_target none none = true
same_target (some a) (some b) = eqb a b
same_target _ _ = false

abbrev pub note : Bool → String → List String
note true name = []
note false name = name ∷ []

-- the names of the fields in which the second routine differs
unfoldable pub changed_fields : Routine → Routine → List String
changed_fields r q =
    note (q.title == r.title) "title"
    ++ note (q.cron == r.cron) "cron"
    ++ note (q.tz == r.tz) "tz"
    ++ note (same_target q.target_count r.target_count) "target_count"
    ++ note (same_target q.target_minutes r.target_minutes) "target_minutes"

-- a title that is patched is trimmed
abbrev pub new_title : Option String → String → String
new_title none old = old
new_title (some t) old = trim t

unfoldable pub patched : RoutinePatch → Routine → Routine
patched patch r = record r {
  title = new_title patch.title r.title;
  cron = unwrap_or patch.cron r.cron;
  tz = unwrap_or patch.tz r.tz;
  target_count = unwrap_or patch.target_count r.target_count;
  target_minutes = unwrap_or patch.target_minutes r.target_minutes;
}

-- the routine that a request asks for
unfoldable pub routine_of : Draws → NewRoutine → Routine
routine_of d new = record {
  id = d.id;
  area_id = new.area_id;
  direction_id = new.direction_id;
  title = trim new.title;
  kind = new.kind;
  cron = new.cron;
  tz = unwrap_or new.tz "UTC";
  target_count = new.target_count;
  target_minutes = new.target_minutes;
  status = RoutineStatus.active;
  created_at = d.now;
  updated_at = d.now;
}

-- the `INSERT` and its event
unfoldable pub insert_row : Draws → Routine → Db → Db
insert_row d r db =
    append_event (routine_event d r.id "created" none (some "active") (created_payload r))
      (record db { routines = record { routine = r; kernel_suspended_at = none } ∷ db.routines })

unfoldable pub insert_routine : Draws → Routine → Db → Db
insert_routine d r db =
    enqueue d "scheduler.upsert" r.id (routine_outbox_upsert_desired r.id r.cron r.tz true)
      (insert_row d r db)

-- the `UPDATE` of the fields and its event
unfoldable pub set_fields : Draws → Routine → Routine → List String → Db → Db
set_fields d current updated changed db =
    append_event (routine_event d current.id "updated" none none (updated_payload updated changed))
      (record db {
        routines = update_rows current.id (λ row. record row { routine = updated }) db.routines;
      })

-- and the intent, if the schedule has changed
unfoldable pub write_patch : Draws → Routine → Routine → List String → Db → Db
unfolding set_fields
write_patch d current updated changed db =
    if contains "cron" changed || contains "tz" changed
    then enqueue d "scheduler.upsert" current.id
        (routine_outbox_upsert_desired current.id updated.cron updated.tz
          (is_active current.status))
        (set_fields d current updated changed db)
    else set_fields d current updated changed db

-- the result is the routine with the names of the fields that changed
unfoldable pub finish_update :
    Draws → Routine → Routine → List String → Db → StoreResult ((Routine × List String) × Db)
finish_update d current updated changed db =
    if is_empty changed
    then ok ((current, changed), db)
    else ok ((updated, changed), write_patch d current updated changed db)

module _ (parse_schedule parse_tz : String → Bool) where
  unfoldable pub check_title : Option String → StoreResult (Unit {0})
  check_title none = ok tt
  check_title (some t) = fail_if (trim t == "") (invalid blank_title)

  unfoldable pub check_cron : Option String → StoreResult (Unit {0})
  check_cron none = ok tt
  check_cron (some c) = elim (validate_cron parse_schedule c) [
    | none ↦ ok tt
    | some e ↦ err (invalid (bad_cron e))
  ]

  unfoldable pub check_tz : Option String → StoreResult (Unit {0})
  check_tz none = ok tt
  check_tz (some t) = do
    fail_if (t == "") (invalid empty_tz)
    fail_if (not (parse_tz t)) (invalid (unknown_tz t))

  -- what is checked before the `INSERT`
  unfoldable pub check_new : NewRoutine → Db → StoreResult (Unit {0})
  check_new new db = do
    check_title (some new.title)
    fail_if (unwrap_or new.tz "UTC" == "") (invalid empty_tz)
    check_cron (some new.cron)
    check_tz (some (unwrap_or new.tz "UTC"))
    check_positive_target new.target_count "target_count"
    check_positive_target new.target_minutes "target_minutes"
    require_exists "area" new.area_id db.areas
    require_exists "direction" new.direction_id db.directions

  unfoldable pub create_routine : Draws → NewRoutine → Db → StoreResult (Routine × Db)
  create_routine d new db = do
    check_new new db
    ok (routine_of d new, insert_routine d (routine_of d new) db)

  -- what is checked of a patch by itself
  unfoldable pub check_patch : RoutinePatch → StoreResult (Unit {0})
  check_patch patch = do
    check_title patch.title
    check_cron patch.cron
    check_tz patch.tz
    check_positive_target (unwrap_or patch.target_count none) "target_count"
    check_positive_target (unwrap_or patch.target_minutes none) "target_minutes"

  unfoldable pub update_found :
      Draws → RoutinePatch → Db → Routine → StoreResult ((Routine × List String) × Db)
  update_found d patch db current = do
    fail_if (routine_is_terminal current.status) (conflict "routine" current.id)
    finish_update d current (record (patched patch current) { updated_at = d.now })
        (changed_fields current (patched patch current)) db

  unfoldable pub update_routine :
      Draws → RoutineId → RoutinePatch → Db → StoreResult ((Routine × List String) × Db)
  update_routine d id patch db = do
    check_patch patch
    current ← found (find_routine id db.routines) (not_found "routine" id)
    update_found d patch db current
