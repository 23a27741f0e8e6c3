-- ===== src/Store/Routines/Patch.antt =====
-- src/store/repo.rs: the writes of `update_routine` and the intents.
use sin.Prelude.{
  String, ◌≡◌, refl, sym, ◌∙◌, ap, subst, Bool, true, false, ◌||◌, some, List, ◌++◌, ◌==◌, arith,
  eq_iff, All-map, All-zip, Bool-cases, inl, inr, is_empty,
}
use sin.Prelude.Text.{contains}
use sin.Core.Types.{Routine, RoutinePatch, RoutineStatus}
use sin.Core.Transitions.{routine_is_terminal}
use sin.Store.Outbox.Formed.{IsFreshId}
use sin.Store.Errors.{ok}
use sin.Store.Routines.{
  Db, Draws, RoutineRow, find_routine, routine_outbox_upsert_desired, is_active,
}
use sin.Store.Routines.Ops.{
  write_patch, set_fields, patched, changed_fields, finish_update, note, same_target,
}
use sin.Store.Routines.Moves.{intent_desired}
use sin.Store.Routines.Mirror.{MirroredIn, LiveTells}
use sin.Store.Routines.Rows.{find_routine_only, update_rows-All, UniqueRoutines-update}
use sin.Store.Routines.Invariant.{Inv, written-Fits}
use sin.Store.Routines.Preserve.{enqueue-Inv, live_at}

-- the list of the names of the fields that changed
abbrev names : Bool → Bool → Bool → Bool → Bool → List String
names a b c d e =
    note a "title"
    ++ note b "cron"
    ++ note c "tz"
    ++ note d "target_count"
    ++ note e "target_minutes"

cron_named : (a b c d e : Bool) → contains "cron" (names a b c d e) ≡ false → b ≡ true
unfolding contains
cron_named a true c d e h = refl
cron_named true false c d e h = cc
cron_named false false c d e h = cc

tz_named : (a b c d e : Bool) → contains "tz" (names a b c d e) ≡ false → c ≡ true
unfolding contains
tz_named a b true d e h = refl
tz_named true true false d e h = cc
tz_named true false false d e h = cc
tz_named false true false d e h = cc
tz_named false false false d e h = cc

-- a patch that names neither `cron` nor `tz` as changed leaves both
schedule_kept :
    (r q : Routine)
    → (contains "cron" (changed_fields r q) || contains "tz" (changed_fields r q)) ≡ false
    → (q.cron ≡ r.cron) × (q.tz ≡ r.tz)
unfolding changed_fields
schedule_kept r q h = (
  (eq_iff q.cron r.cron).0 (
      cron_named (q.title == r.title) (q.cron == r.cron) (q.tz == r.tz)
        (same_target q.target_count r.target_count) (same_target q.target_minutes r.target_minutes)
        (or_parts h).0),
  (eq_iff q.tz r.tz).0 (
      tz_named (q.title == r.title) (q.cron == r.cron) (q.tz == r.tz)
        (same_target q.target_count r.target_count) (same_target q.target_minutes r.target_minutes)
        (or_parts h).1),
)
  where
    or_parts : {a b : Bool} → (a || b) ≡ false → (a ≡ false) × (b ≡ false)
    or_parts h = (ground arith, ground arith)

-- a routine with the same id, status and schedule has the same intent
same_intent :
    (s : RoutineStatus) (r q : Routine)
    → q.id ≡ r.id
    → q.cron ≡ r.cron
    → q.tz ≡ r.tz
    → intent_desired s q ≡ intent_desired s r
unfolding intent_desired
same_intent RoutineStatus.active r q i c t = cc
same_intent RoutineStatus.paused r q i c t = cc
same_intent RoutineStatus.retired r q i c t = cc

module _ (d : Draws) (patch : RoutinePatch) (current : Routine) (db : Db) where
  abbrev pub next : Routine
  next = record (patched patch current) { updated_at = d.now }

  abbrev pub changed : List String
  changed = changed_fields current (patched patch current)

  next_keeps : (next.id ≡ current.id) × (next.status ≡ current.status)
  unfolding patched
  next_keeps = (refl, refl)

  quiet_patch :
      (row : RoutineRow)
      → (contains "cron" changed || contains "tz" changed) ≡ false
      → row.routine ≡ current
      → MirroredIn db.outbox row
      → MirroredIn db.outbox (record row { routine = next })
  unfolding patched
  quiet_patch row h e m =
      let (cron, tz) = schedule_kept current (patched patch current) h in
      All-map db.outbox
        (λ q tells live.
          let (k, v) = subst (λ r. LiveTells r q) e tells live in
          (k, v ∙ sym (same_intent current.status current next refl cron tz)))
        m

  patch-Inv :
      find_routine current.id db.routines ≡ some current
      → routine_is_terminal current.status ≡ false
      → IsFreshId d.outbox_id db.outbox
      → Inv db
      → Inv (write_patch d current next changed db)
  unfolding write_patch set_fields patched
  patch-Inv h open_ fresh i = elim (Bool-cases (contains "cron" changed || contains "tz" changed)) [
    | inl touched ↦
        let (kind, desired) = live_at current.status next open_ in
        rw touched (
          enqueue-Inv d "scheduler.upsert" current.id
            (routine_outbox_upsert_desired current.id next.cron next.tz (is_active current.status))
            (set_fields d current next changed db) i.formed fresh
            (UniqueRoutines-update current.id _ db.routines (λ row e. sym e) i.unique)
            (written-Fits current.id db.outbox (λ row. record row { routine = next }) current
              "scheduler.upsert" _ db.routines i.unique h
              (λ row e. (ap (λ r. r.id) (sym e), kind, desired)) i.mirrored))
    | inr quiet ↦ rw quiet (record {
      formed = i.formed;
      unique = UniqueRoutines-update current.id _ db.routines (λ row e. sym e) i.unique;
      mirrored =
          update_rows-All
            (λ row.
              (row.routine.id ≡ current.id → row.routine ≡ current) × MirroredIn db.outbox row)
            (MirroredIn db.outbox) current.id (λ row. record row { routine = next }) db.routines
            (λ row e p. quiet_patch row quiet (p.0 e) p.1) (λ row ne p. p.1)
            (All-zip (λ row. row.routine.id ≡ current.id → row.routine ≡ current)
              (MirroredIn db.outbox) db.routines
              (find_routine_only current.id db.routines i.unique h) i.mirrored);
    })
  ]

  pub finish-Inv :
      {out : (Routine × List String) × Db}
      → find_routine current.id db.routines ≡ some current
      → routine_is_terminal current.status ≡ false
      → IsFreshId d.outbox_id db.outbox
      → Inv db
      → finish_update d current next changed db ≡ ok out
      → Inv out.1
  unfolding finish_update
  finish-Inv h open_ fresh i e = elim (Bool-cases (is_empty changed)) [
    | inl nothing ↦ subst Inv (same_db (rw nothing at e)) i
    | inr something ↦ subst Inv (same_db (rw something at e)) (patch-Inv h open_ fresh i)
  ]
    where
      same_db : {x y : (Routine × List String) × Db} → ok x ≡ ok y → x.1 ≡ y.1
      same_db h = cc
