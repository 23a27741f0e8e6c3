-- ===== src/Examples/Outbox.antt =====
-- The outbox of src/store/repo.rs on a table of one row.
use sin.Prelude.{String, ◌≢◌, ◌↔◌, ◌≡◌, refl, false, some, [], length}
use sin.Prelude.Text.{eq_apart}
use sin.Store.Json.{Value, str, obj, field, end}
use sin.Store.Outbox.{
  OutboxRow, Table, find_live, upsert_outbox, fresh_row, outbox_due_pending, outbox_mark_retry,
}
use sin.Store.Outbox.Live.{IsWellFormed, IsIntent, Continues, upsert_outbox-IsIntent}
use mathlib.Core.List.{Memᴰ}
use sin.Store.Outbox.Due.{IsSendable, due_exact}
use sin.Store.Outbox.Formed.{upsert-IsWellFormed}

abbrev gone : Value
gone = obj (field "key" (str "sin90-routine-a") end)

abbrev one_row : Table
one_row = upsert_outbox "o1" "2026-01-01T00:00:00.000Z" "scheduler.delete" "routine:a" gone []

one_row_is_formed : IsWellFormed one_row
one_row_is_formed =
    upsert-IsWellFormed "o1" "2026-01-01T00:00:00.000Z" "scheduler.delete" "routine:a" gone [] tt
      (record { ids = tt; live = tt })

upsert-IsWellFormed_example :
    IsWellFormed
      (upsert_outbox "o2" "2026-01-02T00:00:00.000Z" "scheduler.upsert" "routine:b" gone one_row)
unfolding upsert_outbox find_live fresh_row
upsert-IsWellFormed_example =
    upsert-IsWellFormed "o2" "2026-01-02T00:00:00.000Z" "scheduler.upsert" "routine:b" gone one_row
      (eq_apart "o2" "o1" refl, tt) one_row_is_formed

upsert_outbox-IsIntent_example :
    ((r : OutboxRow) × (find_live "routine:a" (
          upsert_outbox "o2" "2026-01-02T00:00:00.000Z" "scheduler.upsert" "routine:a" gone one_row)
        ≡ some r)
      × IsIntent "scheduler.upsert" "routine:a" gone r
      × Continues "o2" "2026-01-02T00:00:00.000Z" r (find_live "routine:a" one_row))
    × ((j : String)
        → "routine:a" ≢ j
        → find_live j (
            upsert_outbox "o2" "2026-01-02T00:00:00.000Z" "scheduler.upsert" "routine:a" gone
              one_row)
          ≡ find_live j one_row)
upsert_outbox-IsIntent_example =
    upsert_outbox-IsIntent "o2" "2026-01-02T00:00:00.000Z" "scheduler.upsert" "routine:a" gone
      one_row one_row_is_formed

-- a retry that is put off is not due before its time
put_off :
    length (
      outbox_due_pending "2026-01-01T00:00:01.000Z"
        (outbox_mark_retry "o1" 1 "busy" "2026-01-01T00:00:02.000Z" false one_row))
    ≡ 0
unfolding outbox_due_pending outbox_mark_retry upsert_outbox find_live fresh_row
put_off = refl

due_exact_example :
    Memᴰ
      (fresh_row "o1" "2026-01-01T00:00:00.000Z" "scheduler.delete" "routine:a" gone)
      (outbox_due_pending "2026-01-02T00:00:00.000Z" one_row)
    ↔ (Memᴰ (fresh_row "o1" "2026-01-01T00:00:00.000Z" "scheduler.delete" "routine:a" gone) one_row
        × IsSendable "2026-01-02T00:00:00.000Z"
            (fresh_row "o1" "2026-01-01T00:00:00.000Z" "scheduler.delete" "routine:a" gone))
due_exact_example =
    due_exact "2026-01-02T00:00:00.000Z"
      (fresh_row "o1" "2026-01-01T00:00:00.000Z" "scheduler.delete" "routine:a" gone) one_row
