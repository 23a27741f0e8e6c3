-- ===== src/Adapter/Delivery/Done.antt =====
-- src/adapter_agent24/reconciler.rs and src/store/repo.rs: the rows that are marked done.
use sin.Prelude.{
  All-Memᴰ, String, ◌≡◌, ◌≢◌, refl, true, Option, List, ◌∷◌, eq_iff, arith, All, All-append,
  All-map, All-zip, Option-cases, inl, inr,
}
use mathlib.Core.List.{Memᴰ}
use Prim.Native.String.{◌++◌}
use sin.Store.Json.{Value}
use sin.Store.Outbox.{
  done, OutboxRow, Table, find_live, overwrite, fresh_row, update_where, upsert_outbox, at_version,
  mark_done, mark_failed, outbox_mark_done, outbox_mark_retry, outbox_mark_failed,
  outbox_due_pending,
}
use sin.Store.Outbox.Due.{due-All, update-All}
use sin.Store.Outbox.Live.{IsWellFormed}
use sin.Store.Outbox.Formed.{IsFreshId, upsert-IsWellFormed}
use sin.Adapter.Apply.{
  bad_desired, unknown_kind, not_granted, Surroundings, ReconcilerClients, Dispatch, call, dispatch,
  settle_uncalled,
}
use sin.Adapter.Delivery.{
  State, Step, enqueue, read, send, pass, reply, Reach, start, onward, Delivered,
}
use sin.Adapter.Delivery.Settled.{
  Settled, left_alone, marked_done, marked_retry, marked_failed, settle-Settled, uncalled-Settled,
  Settled-IsWellFormed,
}
use sin.Adapter.Delivery.Agree.{Agree, Agree-kept, Agree-Settled, Agree-upsert, table_agrees}

abbrev DoneDelivered : List OutboxRow → OutboxRow → Type 0
DoneDelivered sent q = q.status ≡ done → Delivered sent q

module _ (id now kind key : String) (desired : Value) (rows : Table) where
  overwritten_undone :
      {sent : List OutboxRow} (q : OutboxRow) → DoneDelivered sent (overwrite kind desired q)
  unfolding overwrite
  overwritten_undone q d = absurd (ground arith)

  Done-upsert :
      (sent : List OutboxRow)
      → All (DoneDelivered sent) rows
      → All (DoneDelivered sent) (upsert_outbox id now kind key desired rows)
  unfolding upsert_outbox overwrite fresh_row
  Done-upsert sent a = elim (Option-cases (find_live key rows)) [
    | inl e ↦ rw e (All-append (DoneDelivered sent) rows _ a ((λ d. absurd (ground arith)), tt))
    | inr (r, e) ↦ rw e (update-All (DoneDelivered sent) _ _ rows (λ q _ _. overwritten_undone q) a)
  ]

at_version_id :
    (r q : OutboxRow) → at_version r.id r.version q ≡ true → (r.id ≡ q.id) × (r.version ≡ q.version)
at_version_id r q h = (ground (arith, eq_iff q.id r.id), ground arith)

failed_undone :
    (sent : List OutboxRow) (kind error : String) (q : OutboxRow)
    → DoneDelivered sent (mark_failed kind error q)
failed_undone sent kind error q d = absurd (ground arith)

Done-failed :
    (sent : List OutboxRow) (r : OutboxRow) (rows : Table) (kind error : String)
    → All (DoneDelivered sent) rows
    → All (DoneDelivered sent) (outbox_mark_failed r.id r.version kind error rows)
unfolding outbox_mark_failed
Done-failed sent r rows kind error a =
    update-All (DoneDelivered sent) _ _ rows (λ q _ _. failed_undone sent kind error q) a

Done-marked :
    (sent : List OutboxRow) (r : OutboxRow) (rows : Table) (now : String) (result : Option String)
    → Memᴰ r sent
    → All (Agree r) rows
    → All (DoneDelivered sent) rows
    → All (DoneDelivered sent) (outbox_mark_done now r.id r.version result rows)
unfolding outbox_mark_done
Done-marked sent r rows now result m g a =
    All-map (update_where (at_version r.id r.version) (mark_done now result) rows) (λ q p. p.1)
      (update-All (λ q. Agree r q × DoneDelivered sent q) _ _ rows
        (λ q hit p.
          let (i, v) = at_version_id r q hit in
          (
            Agree-kept r q (mark_done now result q) refl refl refl refl p.0,
            λ _. (r, m, i, v, p.0.kind i v, p.0.desired i v),
          ))
        (All-zip (Agree r) (DoneDelivered sent) rows g a))

Done-Settled :
    (sent : List OutboxRow) (r : OutboxRow) {rows rows' : Table}
    → Settled r rows rows'
    → Memᴰ r sent
    → All (Agree r) rows
    → All (DoneDelivered sent) rows
    → All (DoneDelivered sent) rows'
unfolding outbox_mark_retry
Done-Settled sent r {rows} left_alone m g a = a
Done-Settled sent r {rows} (marked_done now result) m g a = Done-marked sent r rows now result m g a
Done-Settled sent r {rows} (marked_retry error later bump) m g a =
    update-All (DoneDelivered sent) _ _ rows (λ q _ p. p) a
Done-Settled sent r {rows} (marked_failed kind error) m g a = Done-failed sent r rows kind error a

-- a copy that leads to no call never marks a row done
Done-uncalled :
    (e : Surroundings) (sent : List OutboxRow) (r : OutboxRow) (d : Dispatch) (rows : Table)
    → All (DoneDelivered sent) rows
    → All (DoneDelivered sent) (settle_uncalled e r d rows)
unfolding settle_uncalled outbox_mark_retry
Done-uncalled e sent r bad_desired rows a =
    Done-failed sent r rows "bad_desired" (r.kind ++ " desired payload: " ++ e.serde_message r) a
Done-uncalled e sent r unknown_kind rows a = update-All (DoneDelivered sent) _ _ rows (λ q _ p. p) a
Done-uncalled e sent r not_granted rows a = a
Done-uncalled e sent r (call c) rows a = a

Delivered-more :
    (r : OutboxRow) (sent : List OutboxRow) (q : OutboxRow)
    → DoneDelivered sent q
    → DoneDelivered (r ∷ sent) q
Delivered-more r sent q h d = let (x, m, i, v, k, p) = h d in (x, Memᴰ.tail m, i, v, k, p)

pub record Inv (s : State) : Type 0 where
  pub formed : IsWellFormed s.table
  pub seen_agree : All (λ r. All (Agree r) s.table) s.seen
  pub sent_agree : All (λ r. All (Agree r) s.table) s.sent
  pub delivered : All (DoneDelivered s.sent) s.table

abbrev Agrees : Table → OutboxRow → Type 0
Agrees rows r = All (Agree r) rows

-- new ids leave the copies in agreement with the table
Agrees-upsert :
    (id now kind key : String) (desired : Value) (rows : Table) (copies : List OutboxRow)
    → IsFreshId id copies
    → All (Agrees rows) copies
    → All (Agrees (upsert_outbox id now kind key desired rows)) copies
Agrees-upsert id now kind key desired rows copies fresh a =
    All-map copies (λ x p. Agree-upsert id now kind key desired rows x p.0 p.1)
      (All-zip (λ x. id ≢ x.id) (Agrees rows) copies fresh a)

Agrees-Settled :
    (r : OutboxRow) {rows rows' : Table} (copies : List OutboxRow)
    → Settled r rows rows'
    → All (Agrees rows) copies
    → All (Agrees rows') copies
Agrees-Settled r copies s a = All-map copies (λ x p. Agree-Settled x r s p) a

Inv-Settled :
    (s : State) (r : OutboxRow) {rows' : Table}
    → Settled r s.table rows'
    → All (DoneDelivered s.sent) rows'
    → Inv s
    → Inv (record s { table = rows' })
Inv-Settled s r settled d i = record {
  formed = Settled-IsWellFormed r settled i.formed;
  seen_agree = Agrees-Settled r s.seen settled i.seen_agree;
  sent_agree = Agrees-Settled r s.sent settled i.sent_agree;
  delivered = d;
}

module _ (clients : ReconcilerClients) where
  Step-Inv : {s t : State} → Step clients s t → Inv s → Inv t
  Step-Inv (enqueue s id now kind key desired f fs ft) i = record {
    formed = upsert-IsWellFormed id now kind key desired s.table f i.formed;
    seen_agree = Agrees-upsert id now kind key desired s.table s.seen fs i.seen_agree;
    sent_agree = Agrees-upsert id now kind key desired s.table s.sent ft i.sent_agree;
    delivered = Done-upsert id now kind key desired s.table s.sent i.delivered;
  }
  Step-Inv (read s now r m) i = record {
    formed = i.formed;
    seen_agree = (
      All-Memᴰ (Agrees s.table) (outbox_due_pending now s.table) r
          (due-All (Agrees s.table) now s.table (table_agrees s.table i.formed.ids)) m,
      i.seen_agree,
    );
    sent_agree = i.sent_agree;
    delivered = i.delivered;
  }
  Step-Inv (send s r c m cur e) i = record {
    formed = i.formed;
    seen_agree = i.seen_agree;
    sent_agree = (All-Memᴰ (Agrees s.table) s.seen r i.seen_agree m, i.sent_agree);
    delivered = All-map s.table (λ q. Delivered-more r s.sent q) i.delivered;
  }
  Step-Inv (pass s e r m cur) i =
      Inv-Settled s r (uncalled-Settled e r s.table (dispatch clients r))
        (Done-uncalled e s.sent r (dispatch clients r) s.table i.delivered) i
  Step-Inv (reply s e r answer m) i =
      let settled = settle-Settled e r s.table answer in
      Inv-Settled s r settled
        (Done-Settled s.sent r settled m (All-Memᴰ (Agrees s.table) s.sent r i.sent_agree m)
          i.delivered)
        i

  Reach-Inv : {s : State} → Reach clients s → Inv s
  Reach-Inv start = record {
    formed = record { ids = tt; live = tt };
    seen_agree = tt;
    sent_agree = tt;
    delivered = tt;
  }
  Reach-Inv (onward h st) = Step-Inv st (Reach-Inv h)

-- In every state that the store's writers and the pump reach, in any interleaving of enqueues,
-- reads, sends, settled rows and late replies: a row that is `done` has had its intent sent to the
-- kernel, by a copy with the id, the version, the kind and the payload that the row still has.
pub done-Delivered :
    (clients : ReconcilerClients) (s : State) (q : OutboxRow)
    → Reach clients s
    → Memᴰ q s.table
    → q.status ≡ done
    → Delivered s.sent q
done-Delivered clients s q h m d =
    All-Memᴰ (DoneDelivered s.sent) s.table q (Reach-Inv clients h).delivered m d
