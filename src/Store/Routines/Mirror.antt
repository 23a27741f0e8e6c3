-- ===== src/Store/Routines/Mirror.antt =====
-- src/store/repo.rs: the intents in the outbox, compared with what the routines are.
use sin.Prelude.{
  String, ◌≡◌, ◌≢◌, refl, sym, ◌∙◌, ap, true, Option, none, some, eq_refl, All, All-map,
}
use sin.Core.Types.{RoutineId, Routine}
use sin.Store.Json.{Value}
use sin.Store.Outbox.{OutboxRow, Table, is_live_for, find_live, upsert_outbox, overwrite, fresh_row}
use sin.Store.Outbox.Live.{IsWellFormed, intent, find_live-upsert, find_live-All, live_found}
use sin.Store.Outbox.Formed.{IsFreshId, upsert-IsWellFormed}
use sin.Store.Routines.{RoutineRow, routine_dedup_key}
use sin.Store.Routines.Moves.{intent_kind, intent_desired}
use sin.Store.Routines.Keys.{dedup_keys_apart}

-- the intent says what the routine is
abbrev pub Tells : Routine → OutboxRow → Type 0
Tells r q = (q.kind ≡ intent_kind r.status) × (q.desired ≡ intent_desired r.status r)

abbrev pub LiveTells : Routine → OutboxRow → Type 0
LiveTells r q = is_live_for (routine_dedup_key r.id) q ≡ true → Tells r q

abbrev pub MirroredIn : Table → RoutineRow → Type 0
MirroredIn outbox row = All (LiveTells row.routine) outbox

some-injective : {a b : OutboxRow} → some a ≡ some b → a ≡ b
some-injective e = cc

module _ (id now kind : String) (owner : RoutineId) (desired : Value) (outbox : Table) where
  abbrev pub next_outbox : Table
  next_outbox = upsert_outbox id now kind (routine_dedup_key owner) desired outbox

  pub intent_says :
      (o : Option OutboxRow)
      → ((intent id now kind (routine_dedup_key owner) desired o).kind ≡ kind)
        × ((intent id now kind (routine_dedup_key owner) desired o).desired ≡ desired)
  unfolding overwrite fresh_row
  intent_says none = (refl, refl)
  intent_says (some q) = (refl, refl)

  module _ (wf : IsWellFormed outbox) (fresh : IsFreshId id outbox) where
    pub next_wf : IsWellFormed next_outbox
    next_wf = upsert-IsWellFormed id now kind (routine_dedup_key owner) desired outbox fresh wf

    new_is_intent :
        (q : OutboxRow)
        → find_live (routine_dedup_key owner) next_outbox ≡ some q
        → q
          ≡ intent id now kind
              (routine_dedup_key owner)
              desired
              (find_live (routine_dedup_key owner) outbox)
    new_is_intent q h =
        let key = routine_dedup_key owner in
        some-injective
          (sym h ∙ (rw (eq_refl key) at (find_live-upsert id now kind key key desired outbox wf)))

    was_there :
        (other : RoutineId)
        → owner ≢ other
        → (q : OutboxRow) → find_live (routine_dedup_key other) next_outbox ≡ some q
        → find_live (routine_dedup_key other) outbox ≡ some q
    was_there other ne q h =
        let key = routine_dedup_key owner in
        let key' = routine_dedup_key other in
        sym (
          rw (dedup_keys_apart owner other ne) at
            (find_live-upsert id now kind key key' desired outbox wf))
        ∙ h

    -- the routine whose intent is put in
    pub Mirrored-owner :
        (row : RoutineRow)
        → row.routine.id ≡ owner
        → kind ≡ intent_kind row.routine.status
        → desired ≡ intent_desired row.routine.status row.routine
        → MirroredIn next_outbox row
    Mirrored-owner row e ek ed =
        All-map next_outbox
          (λ q there live.
            let says = intent_says (find_live (routine_dedup_key owner) outbox) in
            let same = new_is_intent q (rw e at (there live)) in
            (ap (λ x. x.kind) same ∙ says.0 ∙ ek, ap (λ x. x.desired) same ∙ says.1 ∙ ed))
          (live_found (routine_dedup_key row.routine.id) next_outbox next_wf.live)

    -- every other routine
    pub Mirrored-other :
        (row : RoutineRow)
        → owner ≢ row.routine.id
        → MirroredIn outbox row
        → MirroredIn next_outbox row
    Mirrored-other row ne m =
        All-map next_outbox
          (λ q there live.
            find_live-All (LiveTells row.routine) (routine_dedup_key row.routine.id) outbox m
              (was_there row.routine.id ne q (there live)) live)
          (live_found (routine_dedup_key row.routine.id) next_outbox next_wf.live)
