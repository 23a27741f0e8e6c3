-- ===== src/Store/Routines/Preserve.antt =====
-- src/store/repo.rs: the writes to routines and outbox, one by one, and the invariant.
use sin.Prelude.{
  String, ◌≡◌, ◌≢◌, refl, sym, ◌∙◌, ap, subst, true, false, ◌||◌, not, some, List, arith, All,
  All-map, All-zip, Bool-cases, Option-cases, inl, inr,
}
use sin.Core.Types.{RoutineId, Routine, RoutineStatus, active}
use sin.Core.Transitions.{routine_is_terminal}
use sin.Store.Json.{Value, obj, field, str, end}
use sin.Store.Outbox.{Table, already_pending}
use sin.Store.Outbox.Live.{IsWellFormed}
use sin.Store.Outbox.Formed.{IsFreshId}
use sin.Store.Routines.{
  Db, Draws, RoutineRow, find_routine, routine_dedup_key, routine_kernel_key,
  routine_outbox_upsert_desired, routine_outbox_delete_desired, is_active,
}
use sin.Store.Routines.Ops.{insert_routine, insert_row}
use sin.Store.Routines.Moves.{
  outbox_enqueue_upsert_for_routine, outbox_enqueue_delete_for_orphan, assert_found, set_status,
  write_transition, intent_kind, intent_desired, is_wanted,
}
use sin.Store.Routines.Mirror.{MirroredIn, next_wf}
use sin.Store.Routines.Rows.{
  UniqueRoutines, find_routine_id, find_routine_only, find_routine-none, UniqueRoutines-update,
}
use sin.Store.Routines.{enqueue}
use sin.Store.Routines.Invariant.{Inv, Fits, Fits-Mirrored, written-Fits}

pub enqueue-Inv :
    (d : Draws) (kind : String) (owner : RoutineId) (desired : Value) (db : Db)
    → IsWellFormed db.outbox
    → IsFreshId d.outbox_id db.outbox
    → UniqueRoutines db.routines
    → All (Fits owner kind desired db.outbox) db.routines
    → Inv (enqueue d kind owner desired db)
enqueue-Inv d kind owner desired db wf fresh u fits = record {
  formed = next_wf d.outbox_id d.outbox_now kind owner desired db.outbox wf fresh;
  unique = u;
  mirrored =
      All-map db.routines
        (λ row f.
          Fits-Mirrored d.outbox_id d.outbox_now kind owner desired db.outbox wf fresh row f)
        fits;
}

-- a routine that is found under an id is found under its own
pub found_self :
    (id : RoutineId) (rows : List RoutineRow) (current : Routine)
    → find_routine id rows ≡ some current
    → find_routine current.id rows ≡ some current
found_self id rows current h =
    subst (λ i. find_routine i rows ≡ some current) (sym (find_routine_id id rows h)) h

pub intent_at_status :
    (to : RoutineStatus) (now : String) (r : Routine)
    → intent_desired to r ≡ intent_desired to (record r { status = to; updated_at = now })
unfolding intent_desired
intent_at_status RoutineStatus.active now r = refl
intent_at_status RoutineStatus.paused now r = refl
intent_at_status RoutineStatus.retired now r = refl

pub transition-Inv :
    (d : Draws) (current : Routine) (to : RoutineStatus) (db : Db)
    → find_routine current.id db.routines ≡ some current
    → IsFreshId d.outbox_id db.outbox
    → Inv db
    → Inv (write_transition d current to db)
unfolding write_transition set_status
transition-Inv d current to db h fresh i =
    enqueue-Inv d (intent_kind to) current.id (intent_desired to current)
      (set_status d current to db) i.formed fresh
      (UniqueRoutines-update current.id _ db.routines (λ row e. refl) i.unique)
      (written-Fits current.id db.outbox _ current (intent_kind to) (intent_desired to current)
        db.routines i.unique h
        (λ row e.
          (refl, refl, ap (intent_desired to) (sym e) ∙ intent_at_status to d.now row.routine))
        i.mirrored)

-- an intent for a routine whose row stays as it is
asserted-Fits :
    (owner : RoutineId) (current : Routine) (kind : String) (desired : Value) (outbox : Table)
    (rows : List RoutineRow)
    → UniqueRoutines rows
    → find_routine owner rows ≡ some current
    → kind ≡ intent_kind current.status
    → desired ≡ intent_desired current.status current
    → All (MirroredIn outbox) rows
    → All (Fits owner kind desired outbox) rows
asserted-Fits owner current kind desired outbox rows u h ek ed m =
    All-map rows
      (λ row p. (
        (λ _. p.1),
        (λ e.
            subst (λ r. (kind ≡ intent_kind r.status) × (desired ≡ intent_desired r.status r))
              (sym (p.0 e)) (ek, ed)),
      ))
      (All-zip (λ row. row.routine.id ≡ owner → row.routine ≡ current) (MirroredIn outbox) rows
        (find_routine_only owner rows u h) m)

-- what an upsert says of a routine that is not retired
pub live_at :
    (s : RoutineStatus) (r : Routine)
    → routine_is_terminal s ≡ false
    → ("scheduler.upsert" ≡ intent_kind s)
      × (routine_outbox_upsert_desired r.id r.cron r.tz (is_active s) ≡ intent_desired s r)
unfolding routine_is_terminal intent_desired
live_at RoutineStatus.active r h = (refl, refl)
live_at RoutineStatus.paused r h = (refl, refl)
live_at RoutineStatus.retired r h = absurd (ground arith)

retired_at :
    (s : RoutineStatus) (r : Routine)
    → routine_is_terminal s ≡ true
    → ("scheduler.delete" ≡ intent_kind s)
      × (routine_outbox_delete_desired r.id ≡ intent_desired s r)
unfolding routine_is_terminal intent_desired
retired_at RoutineStatus.active r h = absurd (ground arith)
retired_at RoutineStatus.paused r h = absurd (ground arith)
retired_at RoutineStatus.retired r h = (refl, refl)

pub live_intent :
    (id : RoutineId) (r : Routine)
    → r.id ≡ id
    → routine_is_terminal r.status ≡ false
    → ("scheduler.upsert" ≡ intent_kind r.status)
      × (routine_outbox_upsert_desired id r.cron r.tz (is_active r.status)
          ≡ intent_desired r.status r)
live_intent id r e h =
    subst
      (λ i.
        ("scheduler.upsert" ≡ intent_kind r.status)
        × (routine_outbox_upsert_desired i r.cron r.tz (is_active r.status)
            ≡ intent_desired r.status r))
      e (live_at r.status r h)

pub assert-Inv :
    (d : Draws) (id : RoutineId) (db : Db)
    → IsFreshId d.outbox_id db.outbox
    → Inv db
    → Inv (outbox_enqueue_upsert_for_routine d id db)
unfolding outbox_enqueue_upsert_for_routine assert_found
assert-Inv d id db fresh i = elim (Option-cases (find_routine id db.routines)) [
  | inl e ↦ rw e i
  | inr (r, e) ↦
      elim (Bool-cases
        (routine_is_terminal r.status || already_pending (routine_dedup_key id) db.outbox)) [
          | inl skip ↦ rw (e, skip) i
          | inr go ↦
              let (kind, desired) =
                live_intent id r (find_routine_id id db.routines e) (ground arith) in
              rw (e, go)
                (enqueue-Inv d "scheduler.upsert" id
                  (routine_outbox_upsert_desired id r.cron r.tz (is_active r.status)) db i.formed
                  fresh i.unique
                  (asserted-Fits id r _ _ db.outbox db.routines i.unique e kind desired i.mirrored))
        ]
]

orphan-Fits :
    (id : RoutineId) (db : Db)
    → Inv db
    → is_wanted (find_routine id db.routines) ≡ false
    → All
        (Fits id "scheduler.delete" (obj (field "key" (str (routine_kernel_key id)) end)) db.outbox)
        db.routines
unfolding routine_outbox_delete_desired
orphan-Fits id db i h = elim (Option-cases (find_routine id db.routines)) [
  | inl e ↦
      All-map db.routines (λ row p. ((λ _. p.1), λ same. absurd (p.0 (sym same))))
        (All-zip (λ row. id ≢ row.routine.id) (MirroredIn db.outbox) db.routines
          (find_routine-none id db.routines e) i.mirrored)
  | inr (r, e) ↦
      let (kind, desired) = retired_at r.status r (unwanted r (rw e at h)) in
      asserted-Fits id r "scheduler.delete" _ db.outbox db.routines i.unique e kind
        (subst (λ j. obj (field "key" (str (routine_kernel_key j)) end) ≡ intent_desired r.status r)
          (find_routine_id id db.routines e) desired)
        i.mirrored
]
  where
    unwanted :
        (r : Routine)
        → not (routine_is_terminal r.status) ≡ false
        → routine_is_terminal r.status ≡ true
    unwanted r h = ground arith

pub orphan-Inv :
    (d : Draws) (id : RoutineId) (db : Db)
    → IsFreshId d.outbox_id db.outbox
    → Inv db
    → Inv (outbox_enqueue_delete_for_orphan d id (routine_kernel_key id) db)
unfolding outbox_enqueue_delete_for_orphan
orphan-Inv d id db fresh i =
    elim (Bool-cases (
      is_wanted (find_routine id db.routines)
      || already_pending (routine_dedup_key id) db.outbox)) [
        | inl skip ↦ rw skip i
        | inr go ↦ rw go (
            enqueue-Inv d "scheduler.delete" id
              (obj (field "key" (str (routine_kernel_key id)) end)) db i.formed fresh i.unique
              (orphan-Fits id db i (ground arith)))
      ]

created_intent :
    (r : Routine) (s : RoutineStatus)
    → s ≡ RoutineStatus.active
    → ("scheduler.upsert" ≡ intent_kind s)
      × (routine_outbox_upsert_desired r.id r.cron r.tz true ≡ intent_desired s r)
unfolding intent_desired
created_intent r RoutineStatus.active e = (refl, refl)
created_intent r RoutineStatus.paused e = cc
created_intent r RoutineStatus.retired e = cc

pub create-Inv :
    (d : Draws) (r : Routine) (db : Db)
    → r.status ≡ active
    → All (λ row. r.id ≢ row.routine.id) db.routines
    → IsFreshId d.outbox_id db.outbox
    → Inv db
    → Inv (insert_routine d r db)
unfolding insert_routine insert_row
create-Inv d r db e new fresh i =
    enqueue-Inv d "scheduler.upsert" r.id (routine_outbox_upsert_desired r.id r.cron r.tz true)
      (insert_row d r db) i.formed fresh (new, i.unique)
      (
        ((λ ne. absurd (ne refl)), λ _. created_intent r r.status e),
        All-map db.routines (λ row p. ((λ _. p.1), λ same. absurd (p.0 (sym same))))
            (All-zip (λ row. r.id ≢ row.routine.id) (MirroredIn db.outbox) db.routines new
              i.mirrored),
      )
