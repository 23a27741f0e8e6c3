-- ===== src/Adapter/Reconcile.antt =====
-- src/adapter_agent24/reconciler.rs: `reconcile_full`, with no other writer between its calls of the
-- store. `to_uppercase` is the Unicode case map of the standard library, and `draw` gives what the
-- call of the store for a kernel key draws.
pub mod Maps
pub mod Pass
use sin.Prelude.{
  String, Bool, true, false, not, ◌&&◌, ◌||◌, Option, none, some, List, [], ◌∷◌, ◌++◌, ◌==◌,
  if◌then◌else◌,
}
use sin.Prelude.Text.{str_ltb}
use sin.Prelude.Ascii.{trim, strip_prefix, to_ascii_uppercase}
use sin.Core.Types.{RoutineId, Routine, RoutineStatus}
use sin.Core.Cron.{split_whitespace}
use sin.Store.Routines.{Db, Draws, RoutineRow, routine_kernel_key, is_active}
use sin.Store.Routines.Moves.{
  outbox_enqueue_upsert_for_routine, outbox_enqueue_delete_for_orphan,
  sync_kernel_suspended_routines,
}

-- the SDK's types, as far as they are read here
pub data ModuleSpec : Type 0 where
  cron : (expr : String) (tz : Option String) → ModuleSpec
  other_spec : ModuleSpec

pub record ModuleScheduleState : Type 0 where
  pub key : String
  pub spec : ModuleSpec
  pub enabled : Bool
  pub system_disabled_reason : Option String
  pub user_suspended : Bool

pub record LocalDesired : Type 0 where
  pub routine_id : RoutineId
  pub cron : String
  pub tz : String
  pub enabled : Bool

-- a `BTreeMap` with text keys: entries by increasing key, an insert replaces
module _ {V : Type 0} where
  abbrev pub insert : String → V → List (String × V) → List (String × V)
  insert key value [] = (key, value) ∷ []
  insert key value ((other, old) ∷ entries) =
      let rest = insert key value entries in
      if str_ltb key other
      then (key, value) ∷ (other, old) ∷ entries
      else if key == other
      then (key, value) ∷ entries
      else (other, old) ∷ rest

  unfoldable pub find : String → List (String × V) → Option V
  find key [] = none
  find key ((other, value) ∷ entries) =
      let rest = find key entries in if other == key then some value else rest

abbrev pub is_retired : RoutineStatus → Bool
is_retired RoutineStatus.retired = true
is_retired _ = false

-- the loop over the routines, with the map so far
unfoldable pub local_from :
    List (String × LocalDesired) → List RoutineRow → List (String × LocalDesired)
local_from local [] = local
local_from local (row ∷ rows) =
    let r = row.routine in
    let entry : LocalDesired = record {
      routine_id = r.id;
      cron = r.cron;
      tz = r.tz;
      enabled = is_active r.status;
    } in
    let local' =
      if is_retired r.status then local else insert (routine_kernel_key r.id) entry local in
    local_from local' rows

unfoldable pub local_desired_map : List RoutineRow → List (String × LocalDesired)
unfolding local_from
local_desired_map = local_from []

-- `collect` into a map: of two schedules with one key the later stays
unfoldable pub kernel_from :
    List (String × ModuleScheduleState)
    → List ModuleScheduleState
    → List (String × ModuleScheduleState)
kernel_from kernel [] = kernel
kernel_from kernel (s ∷ schedules) = kernel_from (insert s.key s kernel) schedules

unfoldable pub kernel_map : List ModuleScheduleState → List (String × ModuleScheduleState)
unfolding kernel_from
kernel_map = kernel_from []

abbrev join_words : List String → String
join_words [] = ""
join_words (w ∷ []) = w
join_words (w ∷ v ∷ words) =
    Prim.Native.String.◌++◌ w (Prim.Native.String.◌++◌ " " (join_words (v ∷ words)))

abbrev pub same_bool : Bool → Bool → Bool
same_bool true b = b
same_bool false b = not b

abbrev pub is_some : {A : Type 0} → Option A → Bool
is_some none = false
is_some (some a) = true

module _ (to_uppercase : String → String) where
  unfoldable pub normalize_cron : String → String
  normalize_cron expr = to_uppercase (join_words (split_whitespace expr))

  abbrev same_tz : Option String → String → Bool
  same_tz none tz = false
  same_tz (some t) tz = trim t == trim tz

  unfoldable pub spec_matches : ModuleSpec → (cron tz : String) → Bool
  spec_matches (ModuleSpec.cron expr ktz) c tz =
      normalize_cron expr == normalize_cron c && same_tz ktz tz
  spec_matches other_spec c tz = false

  -- a schedule that is to be put in again
  unfoldable pub needs_upsert : ModuleScheduleState → LocalDesired → Bool
  needs_upsert state desired =
      is_some state.system_disabled_reason
      || not (spec_matches state.spec desired.cron desired.tz)
      || not (same_bool state.enabled desired.enabled)

  module _ (draw : String → Draws) where
    -- one turn of the first loop: the next database, and whether the user has suspended the schedule
    unfoldable pub correct_one : String → LocalDesired → Option ModuleScheduleState → Db → Db × Bool
    correct_one key desired none db =
        (outbox_enqueue_upsert_for_routine (draw key) desired.routine_id db, false)
    correct_one key desired (some state) db =
        if state.user_suspended
        then (db, true)
        else if needs_upsert state desired
        then (outbox_enqueue_upsert_for_routine (draw key) desired.routine_id db, false)
        else (db, false)

    abbrev pub note_suspended : Bool → RoutineId → List RoutineId → List RoutineId
    note_suspended true id ids = ids ++ id ∷ []
    note_suspended false id ids = ids

    unfoldable pub correct_local :
        List (String × LocalDesired)
        → List (String × ModuleScheduleState)
        → Db
        → List RoutineId
        → Db × List RoutineId
    correct_local [] kernel db suspended = (db, suspended)
    correct_local ((key, desired) ∷ local) kernel db suspended =
        let (db', is_suspended) = correct_one key desired (find key kernel) db in
        correct_local local kernel db' (note_suspended is_suspended desired.routine_id suspended)

    -- one turn of the second loop, for a key without a local routine
    unfoldable pub drop_one : String → Option String → Db → Db
    drop_one key none db = db
    drop_one key (some rest) db =
        outbox_enqueue_delete_for_orphan (draw key) (to_ascii_uppercase rest) key db

    unfoldable pub drop_orphans :
        List (String × ModuleScheduleState) → List (String × LocalDesired) → Db → Db
    drop_orphans [] local db = db
    drop_orphans ((key, state) ∷ kernel) local db =
        if is_some (find key local)
        then drop_orphans kernel local db
        else drop_orphans kernel local (drop_one key (strip_prefix "routine." key) db)

    -- `scheduler` is the grant, `listed` what `list` gives, or nothing on an error
    unfoldable pub reconcile_full :
        (scheduler : Bool)
        → (listed : Option (List ModuleScheduleState)) → (now : String) → Db
        → Option Db
    reconcile_full false listed now db = some db
    reconcile_full true none now db = none
    reconcile_full true (some schedules) now db =
        let local = local_desired_map db.routines in
        let kernel = kernel_map schedules in
        let (corrected, suspended) = correct_local local kernel db [] in
        some (sync_kernel_suspended_routines now suspended (drop_orphans kernel local corrected))
