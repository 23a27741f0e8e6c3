-- ===== src/Adapter/Apply/Stale.antt =====
-- src/adapter_agent24/reconciler.rs: replies that come late, for rows that were overwritten meanwhile.
use sin.Prelude.{ℕ, String, ◌≡◌, refl, true, false, ◌∷◌, [], Bool-cases, inl, inr, arith}
use sin.Store.Outbox.{
  OutboxRow, Table, update_where, at_version, outbox_row_is_current, outbox_mark_done,
  outbox_mark_retry, outbox_mark_failed,
}
use sin.Adapter.Apply.{
  Surroundings, Reply, Call, ReconcilerClients, dispatch, apply_one, apply_dispatched, call,
}
use sin.Adapter.Delivery.Settled.{
  Settled, left_alone, marked_done, marked_retry, marked_failed, settle-Settled,
}

pub update-missing :
    (id : String) (version : ℕ) (f : OutboxRow → OutboxRow) (rows : Table)
    → outbox_row_is_current id version rows ≡ false
    → update_where (at_version id version) f rows ≡ rows
unfolding outbox_row_is_current
update-missing id version f [] h = refl
update-missing id version f (q ∷ rows) h = elim (Bool-cases (at_version id version q)) [
  | inl hit ↦ absurd (ground arith)
  | inr miss ↦ rw (miss, update-missing id version f rows (ground arith)) refl
]

Settled-stale :
    (r : OutboxRow) {rows rows' : Table}
    → outbox_row_is_current r.id r.version rows ≡ false
    → Settled r rows rows'
    → rows' ≡ rows
unfolding outbox_mark_done outbox_mark_retry outbox_mark_failed
Settled-stale r {rows} h left_alone = refl
Settled-stale r {rows} h (marked_done now result) = update-missing r.id r.version _ rows h
Settled-stale r {rows} h (marked_retry error later bump) = update-missing r.id r.version _ rows h
Settled-stale r {rows} h (marked_failed kind error) = update-missing r.id r.version _ rows h

-- A row whose intent is sent, and which other writers supersede while the call is in flight (it is
-- no longer pending at the version that was sent), keeps exactly what those writers wrote, whatever
-- the kernel answers.
pub superseded_in_flight :
    (s : Surroundings) (clients : ReconcilerClients) (row : OutboxRow) (kernel : Call → Reply)
    → (meanwhile : Table → Table) (rows : Table) (c : Call)
    → outbox_row_is_current row.id row.version rows ≡ true
    → dispatch clients row ≡ call c
    → outbox_row_is_current row.id row.version (meanwhile rows) ≡ false
    → (apply_one s clients row kernel meanwhile rows).0 ≡ meanwhile rows
unfolding apply_one apply_dispatched
superseded_in_flight s clients row kernel meanwhile rows c current sent superseded =
    rw (current, sent)
      (Settled-stale row superseded (settle-Settled s row (meanwhile rows) (kernel c)))
