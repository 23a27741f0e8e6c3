-- ===== src/Adapter/Delivery/Settled.antt =====
-- src/adapter_agent24/reconciler.rs and src/store/repo.rs: what `settle` leaves of the table, by its cases.
use sin.Prelude.{◌+◌, String, Bool, Option, ◌==◌, leb, Bool-cases, inl, inr}
use sin.Store.Outbox.{OutboxRow, Table, outbox_mark_done, outbox_mark_retry, outbox_mark_failed}
use sin.Store.Outbox.Live.{IsWellFormed}
use sin.Store.Outbox.Formed.{
  mark_done-IsWellFormed, mark_retry-IsWellFormed, mark_failed-IsWellFormed,
}
use sin.Adapter.Apply.{
  bad_desired, unknown_kind, not_granted, Surroundings, Reply, ClientError, is_capacity,
  settle_failure, settle_permanent, settle_capacity, settle_other,
  other_bucket_exhaustion_threshold, Dispatch, call, settle_uncalled, settle,
}

-- what a settled row leaves of the table
pub data Settled (r : OutboxRow) (rows : Table) : Table → Type 0 where
  left_alone : Settled r rows rows
  marked_done :
      (now : String) (result : Option String)
      → Settled r rows (outbox_mark_done now r.id r.version result rows)
  marked_retry :
      (error later : String) (bump : Bool)
      → Settled r rows (outbox_mark_retry r.id r.version error later bump rows)
  marked_failed :
      (kind error : String) → Settled r rows (outbox_mark_failed r.id r.version kind error rows)

module _ (e : Surroundings) (r : OutboxRow) (rows : Table) where
  failure-Settled : (x : ClientError) → Settled r rows (settle_failure e r x rows).0
  unfolding settle_permanent settle_capacity settle_other
  failure-Settled x = elim (Bool-cases (e.is_permanent x)) [
    | inl permanent ↦ rw permanent (marked_failed _ _)
    | inr p ↦ elim (Bool-cases (is_capacity x)) [
      | inl capacity ↦ rw (p, capacity) (marked_retry _ _ _)
      | inr c ↦
          elim (Bool-cases (leb other_bucket_exhaustion_threshold (r.other_bucket_attempts + 1))) [
            | inl exhausted ↦ rw (p, c, exhausted) (marked_failed _ _)
            | inr again ↦ rw (p, c, again) (marked_retry _ _ _)
          ]
    ]
  ]

  not_found-Settled :
      (m : String) → Settled r rows (settle e r (Reply.err (ClientError.not_found m)) rows).0
  unfolding settle
  not_found-Settled m = elim (Bool-cases (r.kind == "scheduler.delete")) [
    | inl gone ↦ rw gone (marked_done _ _)
    | inr other ↦ rw other (failure-Settled (ClientError.not_found m))
  ]

  pub settle-Settled : (answer : Reply) → Settled r rows (settle e r answer rows).0
  unfolding settle
  settle-Settled (Reply.ok result) = marked_done _ _
  settle-Settled (Reply.err (ClientError.not_found m)) = not_found-Settled m
  settle-Settled (Reply.err (ClientError.revoked m)) = left_alone
  settle-Settled (Reply.err ClientError.connection_lost) = left_alone
  settle-Settled (Reply.err x) = failure-Settled x

  pub uncalled-Settled : (d : Dispatch) → Settled r rows (settle_uncalled e r d rows)
  unfolding settle_uncalled
  uncalled-Settled bad_desired = marked_failed _ _
  uncalled-Settled unknown_kind = marked_retry _ _ _
  uncalled-Settled not_granted = left_alone
  uncalled-Settled (call c) = left_alone

pub Settled-IsWellFormed :
    (r : OutboxRow) {rows rows' : Table}
    → Settled r rows rows'
    → IsWellFormed rows
    → IsWellFormed rows'
Settled-IsWellFormed r {rows} left_alone wf = wf
Settled-IsWellFormed r {rows} (marked_done now result) wf =
    mark_done-IsWellFormed r.id r.version rows wf now result
Settled-IsWellFormed r {rows} (marked_retry error later bump) wf =
    mark_retry-IsWellFormed r.id r.version rows wf error later bump
Settled-IsWellFormed r {rows} (marked_failed kind error) wf =
    mark_failed-IsWellFormed r.id r.version rows wf kind error
