-- ===== src/Adapter/Delivery.antt =====
-- src/adapter_agent24/reconciler.rs and src/store/repo.rs: the outbox under interleavings. Writers
-- collapse intents onto rows while the pump holds copies of rows that it read earlier.
pub mod Settled
pub mod Agree
pub mod Done
use sin.Prelude.{
  ℕ, ◌+◌, ◌≤◌, ◌<◌, String, ◌≡◌, ◌≢◌, refl, sym, ◌∙◌, ap, subst, Bool, true, false, ◌&&◌, Option,
  none, some, List, [], ◌∷◌, ◌++◌, ◌==◌, eq_iff, eqb, leb, arith, if◌then◌else◌, All, All-append,
  All-map, All-zip, Bool-cases, Option-cases, inl, inr, ◌⊎◌,
}
use mathlib.Core.List.{Memᴰ}
use sin.Store.Json.{Value}
use sin.Store.Outbox.{
  OutboxStatus, pending, failed, done, OutboxRow, Table, find_live, overwrite, fresh_row,
  update_where, upsert_outbox, write_outbox, at_version, mark_done, mark_retry, mark_failed,
  outbox_row_is_current, outbox_mark_done, outbox_mark_retry, outbox_mark_failed,
  outbox_due_pending,
}
use sin.Store.Outbox.Due.{due-All, update-All}
use sin.Store.Outbox.Live.{IsWellFormed, UniqueIds}
use sin.Store.Outbox.Formed.{
  IsFreshId, upsert-IsWellFormed, mark_done-IsWellFormed, mark_retry-IsWellFormed,
  mark_failed-IsWellFormed,
}
use sin.Adapter.Apply.{
  Surroundings, ReconcilerClients, Call, Reply, ClientError, is_capacity, settle_failure,
  settle_permanent, settle_capacity, settle_other, other_bucket_exhaustion_threshold, Dispatch,
  call, dispatch, settle_uncalled, settle,
}

pub record State : Type 0 where
  pub table : Table
  pub seen : List OutboxRow  -- the copies that the pump has read
  pub sent : List OutboxRow  -- the copies whose intent has gone to the kernel

module _ (clients : ReconcilerClients) where
  pub data Step : State → State → Type 0 where
    -- a store operation enqueues an intent, under an id that no row has had
    enqueue :
        (s : State) (id now kind key : String) (desired : Value)
        → IsFreshId id s.table
        → IsFreshId id s.seen
        → IsFreshId id s.sent
        → Step s (record s { table = upsert_outbox id now kind key desired s.table })
    -- the pump reads a due row
    read :
        (s : State) (now : String) (r : OutboxRow)
        → Memᴰ r (outbox_due_pending now s.table)
        → Step s (record s { seen = r ∷ s.seen })
    -- it sends the intent of a copy that is still current
    send :
        (s : State) (r : OutboxRow) (c : Call)
        → Memᴰ r s.seen
        → outbox_row_is_current r.id r.version s.table ≡ true
        → dispatch clients r ≡ call c
        → Step s (record s { sent = r ∷ s.sent })
    -- or settles a copy that leads to no call
    pass :
        (s : State) (e : Surroundings) (r : OutboxRow)
        → Memᴰ r s.seen
        → outbox_row_is_current r.id r.version s.table ≡ true
        → Step s (record s { table = settle_uncalled e r (dispatch clients r) s.table })
    -- the reply to a call comes, at any later time
    reply :
        (s : State) (e : Surroundings) (r : OutboxRow) (answer : Reply)
        → Memᴰ r s.sent
        → Step s (record s { table = (settle e r answer s.table).0 })

  pub data Reach : State → Type 0 where
    start : Reach (record { table = []; seen = []; sent = [] })
    onward : {s t : State} → Reach s → Step s t → Reach t

-- the intent of the row has gone to the kernel, at the version and with the payload of the row
abbrev pub Delivered : List OutboxRow → OutboxRow → Type 0
Delivered sent q =
    (r : OutboxRow) × Memᴰ r sent
    × (r.id ≡ q.id)
    × (r.version ≡ q.version)
    × (r.kind ≡ q.kind)
    × (r.desired ≡ q.desired)
