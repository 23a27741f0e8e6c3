-- ===== src/Examples/Routines.antt =====
-- The operations of src/store/repo.rs on one routine.
use sin.Prelude.{
  inl, ◌↔◌, ◌⊎◌, any_of, ℕ, String, ◌≡◌, ◌≢◌, refl, Bool, true, false, Option, none, some, [], ◌==◌,
  All, length, if◌then◌else◌,
}
use sin.Prelude.Text.{eq_apart, chars, is_ascii_digit}
use sin.Prelude.Ascii.{NoLower}
use sin.Core.Types.{RoutineId, NewRoutine, Routine, RoutineKind, RoutineStatus}
use sin.Core.Cron.{validate_cron, split_whitespace, field_at, weekday_digits, both_restricted}
use sin.Store.Outbox.{
  OutboxRow, OutboxStatus, pending, find_live, is_live_for, outbox_row_is_current,
}
use sin.Store.Outbox.Live.{IsWellFormed}
use sin.Store.Errors.{ok}
use sin.Store.Routines.{find_routine, Db, Draws, routine_dedup_key, routine_kernel_key}
use sin.Store.Routines.Ops.{create_routine, update_routine, routine_of, insert_routine}
use sin.Store.Routines.Moves.{transition_routine, write_transition, intent_kind, intent_desired}
use sin.Store.Routines.Keys.{routine_of_key, kernel_key_round_trip}
use sin.Store.Routines.Mirror.{Tells}
use sin.Store.Routines.Steps.{Reach, start, onward, created, transitioned}
use sin.Store.Routines.Current.{live_intents_are_current, transition_is_queued}
use sin.Adapter.Apply.{ReconcilerClients, dispatch, call, not_granted}
use sin.Adapter.Reconcile.{ModuleSpec, ModuleScheduleState}
use sin.Core.Cron.Exact.{IsCron, validate_cron_exact}
use sin.Adapter.Apply.Payload.{wanted_call, intent_dispatches}

abbrev parses : String → Bool
parses s = s == "0 0 7 * * MON"

abbrev is_zone : String → Bool
is_zone s = s == "UTC"

abbrev empty_db : Db
empty_db = record {
  areas = [];
  directions = [];
  routines = [];
  events = [];
  outbox = [];
  notified = false;
}

abbrev first_draws : Draws
first_draws = record {
  id = "01A";
  now = "2026-01-01T00:00:00.000Z";
  event_id = "e1";
  outbox_id = "o1";
  outbox_now = "2026-01-01T00:00:00.001Z";
}

abbrev next_draws : Draws
next_draws = record {
  id = "unused";
  now = "2026-01-02T00:00:00.000Z";
  event_id = "e2";
  outbox_id = "o2";
  outbox_now = "2026-01-02T00:00:00.001Z";
}

abbrev jogging : NewRoutine
jogging = record {
  title = " run ";
  area_id = none;
  direction_id = none;
  kind = RoutineKind.exercise;
  cron = "0 7 * * MON";
  tz = none;
  target_count = some 3;
  target_minutes = none;
}

abbrev run : Routine
run = routine_of first_draws jogging

abbrev db1 : Db
db1 = insert_routine first_draws run empty_db

creates : create_routine parses is_zone first_draws jogging empty_db ≡ ok (run, db1)
unfolding create_routine sin.Store.Routines.Ops.check_new sin.Store.Routines.Ops.check_title
    sin.Prelude.Ascii.trim sin.Prelude.Text.is_whitespace sin.Store.Routines.Ops.check_cron
    validate_cron sin.Core.Cron.split_whitespace sin.Store.Routines.Ops.check_tz
creates = refl

numeric_weekday : validate_cron parses "0 7 * * 1" ≡ some (weekday_digits "1" "0 7 * * 1")
unfolding validate_cron sin.Core.Cron.split_whitespace sin.Prelude.Text.is_whitespace
numeric_weekday = refl

day_and_weekday :
    validate_cron parses "0 7 1 * MON" ≡ some (both_restricted "1" "MON" "0 7 1 * MON")
unfolding validate_cron sin.Core.Cron.split_whitespace sin.Prelude.Text.is_whitespace
day_and_weekday = refl

abbrev stopped : Routine
stopped = record run { status = RoutineStatus.retired; updated_at = "2026-01-02T00:00:00.000Z" }

abbrev db2 : Db
db2 = write_transition next_draws run RoutineStatus.retired db1

retires : transition_routine next_draws "01A" RoutineStatus.retired db1 ≡ ok (stopped, db2)
unfolding transition_routine sin.Store.Routines.find_routine insert_routine
    sin.Store.Routines.Ops.insert_row routine_of sin.Core.Transitions.check_routine_transition
    sin.Core.Transitions.routine_transition_allowed
retires = refl

Reach-db2 : Reach parses is_zone db2
unfolding insert_routine sin.Store.Outbox.upsert_outbox find_live sin.Store.Routines.Ops.insert_row
    sin.Store.Outbox.fresh_row
Reach-db2 =
    onward (onward (start [] []) (created first_draws jogging empty_db db1 run tt tt creates)) (
      transitioned next_draws "01A" RoutineStatus.retired db1 db2 stopped
        (eq_apart "o2" "o1" refl, tt) retires)

live_intents_are_current_example :
    All
      (λ row.
        All
          (λ q. is_live_for (routine_dedup_key row.routine.id) q ≡ true → Tells row.routine q)
          db2.outbox)
      db2.routines
live_intents_are_current_example = live_intents_are_current parses is_zone db2 Reach-db2

db1_is_formed : IsWellFormed db1.outbox
unfolding insert_routine sin.Store.Outbox.upsert_outbox find_live sin.Store.Routines.Ops.insert_row
db1_is_formed = record { ids = (tt, tt); live = ((λ _. tt), tt) }

transition_is_queued_example :
    (stopped.status ≡ RoutineStatus.retired)
    × (find_routine "01A" db2.routines ≡ some stopped)
    × ((j : RoutineId) → "01A" ≢ j → find_routine j db2.routines ≡ find_routine j db1.routines)
    × ((q : OutboxRow) × (find_live (routine_dedup_key "01A") db2.outbox ≡ some q)
        × (q.status ≡ pending)
        × Tells stopped q)
transition_is_queued_example =
    transition_is_queued next_draws "01A" RoutineStatus.retired db1 db2 stopped db1_is_formed
      retires

kernel_key_round_trip_example : routine_of_key (routine_kernel_key "01A") ≡ some "01A"
kernel_key_round_trip_example =
    kernel_key_round_trip "01A" (eq_apart "01A" "" refl) (refl, (refl, (refl, tt)))

abbrev scheduler_only : ReconcilerClients
scheduler_only = record { scheduler = true; memory = false }

abbrev told : OutboxRow
told = record {
  id = "o9";
  kind = intent_kind RoutineStatus.active;
  dedup_key = routine_dedup_key "01A";
  desired = intent_desired RoutineStatus.active run;
  status = pending;
  attempts = 0;
  version = 1;
  other_bucket_attempts = 0;
  failure_kind = none;
  last_error = none;
  next_attempt_at = none;
  created_at = "2026-01-01T00:00:00.000Z";
  done_at = none;
  result_ref = none;
}

intent_dispatches_example :
    dispatch scheduler_only told
    ≡ (if scheduler_only.scheduler then call (wanted_call run.status run) else not_granted)
unfolding routine_of
intent_dispatches_example = intent_dispatches scheduler_only run told (refl, refl)

validate_cron_exact_example :
    (validate_cron parses "0 7 * * MON" ≡ none) ↔ IsCron parses "0 7 * * MON"
validate_cron_exact_example = validate_cron_exact parses "0 7 * * MON"

abbrev listed : ModuleScheduleState
listed = record {
  key = "routine.01a";
  spec = ModuleSpec.cron "0  7 * * MON" (some "UTC");
  enabled = true;
  system_disabled_reason = none;
  user_suspended = false;
}

abbrev as_is : String → String
as_is s = s

abbrev draws_for : String → Draws
draws_for key = next_draws
