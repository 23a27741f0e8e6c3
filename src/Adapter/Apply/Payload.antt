-- ===== src/Adapter/Apply/Payload.antt =====
-- src/adapter_agent24/reconciler.rs and src/store/repo.rs: the payloads of routines, as they are
-- written and as they are read.
use sin.Prelude.{◌≡◌, refl, ap, ◌∙◌, Bool, true, false, some, if◌then◌else◌}
use sin.Core.Types.{Routine, RoutineStatus}
use sin.Store.Outbox.{OutboxRow}
use sin.Store.Routines.{
  routine_kernel_key, is_active, routine_outbox_upsert_desired, routine_outbox_delete_desired,
}
use sin.Store.Routines.Moves.{intent_kind, intent_desired}
use sin.Store.Routines.Mirror.{Tells}
use sin.Adapter.Apply.{
  ReconcilerClients, Call, upsert, delete, call, not_granted, granted, dispatch, parse_upsert,
  parse_delete,
}

-- the call that a routine asks for
abbrev pub wanted_call : RoutineStatus → Routine → Call
wanted_call RoutineStatus.retired r = delete (routine_kernel_key r.id)
wanted_call s r =
    upsert
      (record { key = routine_kernel_key r.id; cron = r.cron; tz = r.tz; enabled = is_active s })

abbrev with_payload : RoutineStatus → Routine → OutboxRow → OutboxRow
with_payload s r q = record q { kind = intent_kind s; desired = intent_desired s r }

granted-some :
    {A : Type 0} (a : A) (g : Bool) (f : A → Call)
    → granted (some a) g f ≡ (if g then call (f a) else not_granted)
granted-some a true f = refl
granted-some a false f = refl

payload_dispatches :
    (clients : ReconcilerClients) (s : RoutineStatus) (r : Routine) (q : OutboxRow)
    → dispatch clients (with_payload s r q)
      ≡ (if clients.scheduler then call (wanted_call s r) else not_granted)
unfolding dispatch parse_upsert parse_delete intent_desired routine_outbox_upsert_desired
    routine_outbox_delete_desired
payload_dispatches clients RoutineStatus.active r q = granted-some _ clients.scheduler upsert
payload_dispatches clients RoutineStatus.paused r q = granted-some _ clients.scheduler upsert
payload_dispatches clients RoutineStatus.retired r q = granted-some _ clients.scheduler delete

-- An intent that says what a routine is leads the reconciler to exactly the call for the routine: an
-- upsert of its kernel key with its cron, its tz and whether it is active, or the delete of the key of
-- a retired one. Without the grant for the scheduler the row is passed over; its payload always parses.
pub intent_dispatches :
    (clients : ReconcilerClients) (r : Routine) (q : OutboxRow)
    → Tells r q
    → dispatch clients q
      ≡ (if clients.scheduler then call (wanted_call r.status r) else not_granted)
intent_dispatches clients r q (k, v) = same_payload q k v ∙ payload_dispatches clients r.status r q
  where
    same_payload :
        (q : OutboxRow)
        → q.kind ≡ intent_kind r.status
        → q.desired ≡ intent_desired r.status r
        → dispatch clients q ≡ dispatch clients (with_payload r.status r q)
    same_payload q k v = ap (dispatch clients) (cc)
