-- ===== src/Examples/Pump.antt =====
-- Passes of the pump of src/adapter_agent24/reconciler.rs.
use sin.Prelude.{◌≡◌, ◌≤◌, ◌<◌, ◌+◌, ◌^◌, refl, true, false, none, some, [], ◌∷◌, arith}
use mathlib.Core.List.{Memᴰ}
use sin.Store.Json.{Value, str, obj, field, end}
use sin.Store.Outbox.{
  OutboxStatus, done, OutboxRow, Table, upsert_outbox, fresh_row, outbox_due_pending,
}
use sin.Adapter.Apply.{
  Surroundings, ReconcilerClients, Call, delete, Reply, ClientError, rate_limited, apply_one,
  drain_pending_before, continue_pump, settle, backoff_after,
}
use sin.Adapter.Apply.Backoff.{backoff_schedule}
use sin.Adapter.Apply.Stale.{superseded_in_flight}
use sin.Adapter.Apply.Drain.{pass_empties_outbox}
use sin.Adapter.Delivery.{State, enqueue, read, send, reply, Reach, start, onward, Delivered}
use sin.Adapter.Delivery.Done.{done-Delivered}

abbrev around : Surroundings
around = record {
  is_permanent = λ e. false;
  message = λ e. "error";
  serde_message = λ r. "missing field";
  debug = λ s. s;
  now_iso8601 = "2026-01-01T00:00:01.000Z";
  iso8601_after_secs = λ n. "2026-01-01T00:00:05.000Z";
}

abbrev both : ReconcilerClients
both = record { scheduler = true; memory = true }

abbrev accepts : Call → Reply
accepts c = Reply.ok none

abbrev gone : Value
gone = obj (field "key" (str "sin90-routine-a") end)

abbrev row : OutboxRow
row = fresh_row "o1" "2026-01-01T00:00:00.000Z" "scheduler.delete" "routine:a" gone

abbrev rows : Table
rows = upsert_outbox "o1" "2026-01-01T00:00:00.000Z" "scheduler.delete" "routine:a" gone []

backoff_schedule_example :
    (4 < 9 → backoff_after (4 + 1) ≡ 2 ^ 4) × (9 ≤ 4 → backoff_after (4 + 1) ≡ 300)
backoff_schedule_example = backoff_schedule 4 (omega arith)

abbrev again : Table → Table
again = upsert_outbox "o2" "2026-01-01T00:00:01.000Z" "scheduler.upsert" "routine:a" gone

superseded_in_flight_example : (apply_one around both row accepts again rows).0 ≡ again rows
unfolding sin.Store.Outbox.outbox_row_is_current upsert_outbox sin.Store.Outbox.find_live fresh_row
    sin.Adapter.Apply.dispatch sin.Store.Outbox.overwrite
superseded_in_flight_example =
    superseded_in_flight around both row accepts again rows (delete "sin90-routine-a") refl refl
      refl

pass_empties_outbox_example :
    (outbox_due_pending "2026-01-01T00:00:01.000Z"
        (drain_pending_before around both accepts "2026-01-01T00:00:01.000Z" rows).0
      ≡ [])
    × ((drain_pending_before around both accepts "2026-01-01T00:00:01.000Z" rows).1 ≡ continue_pump)
unfolding outbox_due_pending upsert_outbox sin.Store.Outbox.find_live fresh_row
    sin.Adapter.Apply.dispatch
pass_empties_outbox_example =
    pass_empties_outbox around both accepts "2026-01-01T00:00:01.000Z" rows
      ((delete "sin90-routine-a", none, refl, refl), tt)

-- enqueued, read, sent and answered
abbrev s1 : State
s1 = record { table = rows; seen = []; sent = [] }

abbrev s2 : State
s2 = record { table = rows; seen = row ∷ []; sent = [] }

abbrev s3 : State
s3 = record { table = rows; seen = row ∷ []; sent = row ∷ [] }

abbrev s4 : State
s4 = record { table = (settle around row (Reply.ok none) rows).0; seen = row ∷ []; sent = row ∷ [] }

Reach-s1 : Reach both s1
Reach-s1 = onward start (
    enqueue (record { table = []; seen = []; sent = [] }) "o1" "2026-01-01T00:00:00.000Z"
      "scheduler.delete" "routine:a" gone tt tt tt)

Reach-s2 : Reach both s2
unfolding outbox_due_pending upsert_outbox sin.Store.Outbox.find_live fresh_row
Reach-s2 = onward Reach-s1 (read s1 "2026-01-01T00:00:01.000Z" row (Memᴰ.head refl))

Reach-s4 : Reach both s4
unfolding sin.Store.Outbox.outbox_row_is_current upsert_outbox sin.Store.Outbox.find_live fresh_row
    sin.Adapter.Apply.dispatch
Reach-s4 =
    onward (onward Reach-s2 (send s2 row (delete "sin90-routine-a") (Memᴰ.head refl) refl refl))
      (reply s3 around row (Reply.ok none) (Memᴰ.head refl))

abbrev finished : OutboxRow
finished = record row {
  status = done;
  done_at = some "2026-01-01T00:00:01.000Z";
  result_ref = none;
}

done-Delivered_example : Delivered s4.sent finished
unfolding settle sin.Store.Outbox.outbox_mark_done upsert_outbox sin.Store.Outbox.find_live
    fresh_row
done-Delivered_example = done-Delivered both s4 finished Reach-s4 (Memᴰ.head refl) refl
