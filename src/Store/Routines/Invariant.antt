-- ===== src/Store/Routines/Invariant.antt =====
-- src/store/repo.rs: the invariant of outbox and routines, and the updates it is stated for.
use sin.Prelude.{
  ℕ, String, ◌≡◌, ◌≢◌, refl, sym, ◌∙◌, Bool, true, ◌&&◌, Option, some, List, ◌==◌, arith, eq_iff,
  All, All-map, All-zip, Bool-cases, inl, inr,
}
use sin.Core.Types.{RoutineId, Routine}
use sin.Store.Json.{Value}
use sin.Store.Outbox.{
  OutboxRow, Table, is_live, update_where, outbox_mark_done, outbox_mark_retry, outbox_mark_failed,
  mark_done, mark_retry, mark_failed, at_version,
}
use sin.Store.Outbox.Due.{update-All}
use sin.Store.Outbox.Live.{IsWellFormed}
use sin.Store.Outbox.Formed.{IsFreshId}
use sin.Store.Routines.{Db, RoutineRow, find_routine, update_rows}
use sin.Store.Routines.Moves.{intent_kind, intent_desired}
use sin.Store.Routines.Mirror.{MirroredIn, LiveTells, next_outbox, Mirrored-owner, Mirrored-other}
use sin.Store.Routines.Rows.{UniqueRoutines, find_routine_only, update_rows-All}

pub record Inv (db : Db) : Type 0 where
  pub formed : IsWellFormed db.outbox
  pub unique : UniqueRoutines db.routines
  pub mirrored : All (MirroredIn db.outbox) db.routines

-- what an intent must be for a row, once it is put in for its owner
abbrev pub Fits : RoutineId → String → Value → Table → RoutineRow → Type 0
Fits owner kind desired outbox row =
    (owner ≢ row.routine.id → MirroredIn outbox row)
    × (row.routine.id ≡ owner
        → (kind ≡ intent_kind row.routine.status)
          × (desired ≡ intent_desired row.routine.status row.routine))

module _ (id now kind : String) (owner : RoutineId) (desired : Value) (outbox : Table) where
  module _ (wf : IsWellFormed outbox) (fresh : IsFreshId id outbox) where
    pub Fits-Mirrored :
        (row : RoutineRow)
        → Fits owner kind desired outbox row
        → MirroredIn (next_outbox id now kind owner desired outbox) row
    Fits-Mirrored row f = elim (Bool-cases (row.routine.id == owner)) [
      | inl same ↦
          let e = (eq_iff row.routine.id owner).0 same in
          Mirrored-owner id now kind owner desired outbox wf fresh row e (f.1 e).0 (f.1 e).1
      | inr other ↦
          let ne : owner ≢ row.routine.id =
            λ e. absurd (ground (arith, eq_iff row.routine.id owner)) in
          Mirrored-other id now kind owner desired outbox wf fresh row ne (f.0 ne)
    ]

-- an update of the outbox that keeps keys and intents, and brings no row back
module _ (p : OutboxRow → Bool) (f : OutboxRow → OutboxRow) where
  MirroredIn-update :
      ((q : OutboxRow)
        → ((f q).dedup_key ≡ q.dedup_key)
          × ((f q).kind ≡ q.kind)
          × ((f q).desired ≡ q.desired)
          × (is_live (f q).status ≡ true → p q ≡ true → is_live q.status ≡ true))
      → (outbox : Table) (row : RoutineRow) → MirroredIn outbox row
      → MirroredIn (update_where p f outbox) row
  MirroredIn-update keep outbox row m =
      update-All (LiveTells row.routine) p f outbox
        (λ q hit tells live.
          let (key, kind, desired, lives) = keep q in
          let (l, k) = and_parts (rw key at live) in
          let (tk, td) = tells (rw (lives l hit, k) refl) in (kind ∙ tk, desired ∙ td))
        m
    where
      and_parts : {a b : Bool} → (a && b) ≡ true → (a ≡ true) × (b ≡ true)
      and_parts h = (ground arith, ground arith)

module _ (rows : List RoutineRow) (outbox : Table) (mirrored : All (MirroredIn outbox) rows) where
  pub done_mirrored :
      (now id : String) (version : ℕ) (result : Option String)
      → All (MirroredIn (outbox_mark_done now id version result outbox)) rows
  unfolding outbox_mark_done
  done_mirrored now id version result =
      All-map rows
        (λ row m.
          MirroredIn-update (at_version id version) (mark_done now result)
            (λ q. (refl, refl, refl, λ l _. absurd (ground arith))) outbox row m)
        mirrored

  pub retry_mirrored :
      (id : String) (version : ℕ) (error next : String) (bump : Bool)
      → All (MirroredIn (outbox_mark_retry id version error next bump outbox)) rows
  unfolding outbox_mark_retry
  retry_mirrored id version error next bump =
      All-map rows
        (λ row m.
          MirroredIn-update (at_version id version) (mark_retry error next bump)
            (λ q. (refl, refl, refl, λ l _. l)) outbox row m)
        mirrored

  pub failed_mirrored :
      (id : String) (version : ℕ) (kind error : String)
      → All (MirroredIn (outbox_mark_failed id version kind error outbox)) rows
  unfolding outbox_mark_failed
  failed_mirrored id version kind error =
      All-map rows
        (λ row m.
          MirroredIn-update (at_version id version) (mark_failed kind error)
            (λ q. (refl, refl, refl, λ _ hit. ground arith)) outbox row m)
        mirrored

-- the rows of a written routine fit its intent
module _ (owner : RoutineId) (outbox : Table) (f : RoutineRow → RoutineRow) where
  pub written-Fits :
      (current : Routine) (kind : String) (desired : Value) (rows : List RoutineRow)
      → UniqueRoutines rows
      → find_routine owner rows ≡ some current
      → ((row : RoutineRow)
          → row.routine ≡ current
          → ((f row).routine.id ≡ row.routine.id)
            × (kind ≡ intent_kind (f row).routine.status)
            × (desired ≡ intent_desired (f row).routine.status (f row).routine))
      → All (MirroredIn outbox) rows
      → All (Fits owner kind desired outbox) (update_rows owner f rows)
  written-Fits current kind desired rows u h says m =
      update_rows-All
        (λ row. (row.routine.id ≡ owner → row.routine ≡ current) × MirroredIn outbox row)
        (Fits owner kind desired outbox) owner f rows
        (λ row e p.
          let (same, k, d) = says row (p.0 e) in
          ((λ ne. absurd (ne (sym (same ∙ e)))), λ _. (k, d)))
        (λ row ne p. ((λ _. p.1), λ e. absurd (ne (sym e))))
        (All-zip (λ row. row.routine.id ≡ owner → row.routine ≡ current) (MirroredIn outbox) rows
          (find_routine_only owner rows u h) m)
