-- ===== src/Adapter/Apply.antt =====
-- src/adapter_agent24/reconciler.rs: `backoff_after`, `apply_one` and `drain_pending`. `ClientError`
-- is the SDK's: its constructors here are the variants that the source names, `unclassified` stands
-- for the rest, and its methods `is_permanent` and `to_string` are parameters.
pub mod Stale
pub mod Payload
pub mod Backoff
pub mod Drain
use sin.Prelude.{
  ℕ, ◌+◌, ◌-◌, ◌^◌, ◌%◌, min, String, Bool, true, false, ◌&&◌, not, Option, none, some, List, [],
  ◌∷◌, ◌==◌, ltb, leb, if◌then◌else◌,
}
use Prim.Native.String.{◌++◌}
use sin.Store.Json.{Value, struct_field, as_str, as_bool}
use sin.Store.Outbox.{
  OutboxRow, Table, outbox_row_is_current, outbox_mark_done, outbox_mark_retry, outbox_mark_failed,
  outbox_due_pending,
}

pub data ClientError : Type 0 where
  not_found revoked forbidden quota_exceeded invalid_params token_invalid payload_too_large
        rate_limited busy not_ready draining unclassified :
      String → ClientError
  connection_lost : ClientError

-- what a call of the kernel gives back: `Result<Option<String>, ClientError>`
pub data Reply : Type 0 where
  ok : Option String → Reply
  err : ClientError → Reply

-- seconds; `as u32` cuts to 32 bits, and `checked_shl` gives nothing from 64 on
unfoldable pub backoff_after : ℕ → ℕ
backoff_after attempts_after_increment =
    let exponent = (attempts_after_increment - 1) % 4294967296 in
    let secs = if ltb exponent 64 then 2 ^ exponent else 18446744073709551615 in min secs 300

unfoldable pub permanent_failure_kind : ClientError → String
permanent_failure_kind (forbidden m) = "forbidden"
permanent_failure_kind (quota_exceeded m) = "quota_exceeded"
permanent_failure_kind (invalid_params m) = "invalid_params"
permanent_failure_kind (token_invalid m) = "token_invalid"
permanent_failure_kind (payload_too_large m) = "payload_too_large"
permanent_failure_kind _ = "other"

abbrev pub other_bucket_exhaustion_threshold : ℕ
other_bucket_exhaustion_threshold = 20

abbrev pub unknown_kind_retry_secs : ℕ
unknown_kind_retry_secs = 3600

pub data RowOutcome : Type 0 where
  continue_batch stop_batch generation_revoked : RowOutcome

pub record UpsertDesired : Type 0 where
  pub key : String
  pub cron : String
  pub tz : String
  pub enabled : Bool

pub record RememberDesired : Type 0 where
  pub dedup_key : String
  pub review_id : String
  pub review_kind : String
  pub period : String
  pub summary : String
  pub finalized_at : String

-- which capabilities this generation was granted
pub record ReconcilerClients : Type 0 where
  pub scheduler : Bool
  pub memory : Bool

pub data Call : Type 0 where
  upsert : UpsertDesired → Call
  delete : (key : String) → Call
  remember : RememberDesired → Call

infixl 5 ◌>>=◌
abbrev ◌>>=◌ {ℓ κ} : {A : Type ℓ} {B : Type κ} → Option A → (A → Option B) → Option B
none >>= f = none
some a >>= f = f a

abbrev at_spec : Option Value → ℕ → String → Option String
at_spec none i k = none
at_spec (some v) i k = as_str (struct_field 2 i k v)

unfoldable pub parse_upsert : Value → Option UpsertDesired
parse_upsert v = do
  key ← as_str (struct_field 3 0 "key" v)
  cron ← at_spec (struct_field 3 1 "spec" v) 0 "cron"
  tz ← at_spec (struct_field 3 1 "spec" v) 1 "tz"
  enabled ← as_bool (struct_field 3 2 "enabled" v)
  some (record { key = key; cron = cron; tz = tz; enabled = enabled })

unfoldable pub parse_delete : Value → Option String
parse_delete v = as_str (struct_field 1 0 "key" v)

unfoldable pub parse_remember : Value → Option RememberDesired
parse_remember v = do
  dedup_key ← as_str (struct_field 6 0 "dedup_key" v)
  review_id ← as_str (struct_field 6 1 "review_id" v)
  review_kind ← as_str (struct_field 6 2 "review_kind" v)
  period ← as_str (struct_field 6 3 "period" v)
  summary ← as_str (struct_field 6 4 "summary" v)
  finalized_at ← as_str (struct_field 6 5 "finalized_at" v)
  some (record {
    dedup_key = dedup_key;
    review_id = review_id;
    review_kind = review_kind;
    period = period;
    summary = summary;
    finalized_at = finalized_at;
  })

-- what the `match` on the kind of the row leads to before any call
pub data Dispatch : Type 0 where
  not_granted bad_desired unknown_kind : Dispatch
  call : Call → Dispatch

abbrev pub granted {ℓ} : {A : Type ℓ} → Option A → Bool → (A → Call) → Dispatch
granted none g f = bad_desired
granted (some a) true f = call (f a)
granted (some a) false f = not_granted

unfoldable pub dispatch : ReconcilerClients → OutboxRow → Dispatch
unfolding parse_upsert parse_delete parse_remember
dispatch clients row =
    if row.kind == "scheduler.upsert"
    then granted (parse_upsert row.desired) clients.scheduler upsert
    else if row.kind == "scheduler.delete"
    then granted (parse_delete row.desired) clients.scheduler delete
    else if row.kind == "memory.remember"
    then granted (parse_remember row.desired) clients.memory remember
    else unknown_kind

-- what the rest of the function takes from outside: the SDK's methods on errors, the text of
-- a payload that serde refuses, `{:?}` of a string, and the clock
pub record Surroundings : Type 0 where
  pub is_permanent : ClientError → Bool
  pub message : ClientError → String
  pub serde_message : OutboxRow → String
  pub debug : String → String
  pub now_iso8601 : String
  pub iso8601_after_secs : ℕ → String

abbrev pub is_capacity : ClientError → Bool
is_capacity (rate_limited m) = true
is_capacity (busy m) = true
is_capacity (not_ready m) = true
is_capacity (draining m) = true
is_capacity _ = false

module _ (s : Surroundings) where
  open s use {is_permanent, message, serde_message, debug, now_iso8601, iso8601_after_secs}

  -- the arms of the first `match` that make no call
  unfoldable pub settle_uncalled : OutboxRow → Dispatch → Table → Table
  settle_uncalled row bad_desired rows =
      outbox_mark_failed row.id row.version "bad_desired"
        (row.kind ++ " desired payload: " ++ serde_message row) rows
  settle_uncalled row unknown_kind rows =
      outbox_mark_retry row.id row.version
        ("unrecognized outbox kind " ++ debug row.kind ++ " — forward-compat wait, not a failure")
        (iso8601_after_secs unknown_kind_retry_secs) false rows
  settle_uncalled row not_granted rows = rows
  settle_uncalled row (call c) rows = rows

  next_attempt : OutboxRow → String
  next_attempt row = iso8601_after_secs (backoff_after (row.attempts + 1))

  unfoldable pub settle_permanent : OutboxRow → ClientError → Table → Table × RowOutcome
  settle_permanent row e rows = (
    outbox_mark_failed row.id row.version (permanent_failure_kind e) (message e) rows,
    continue_batch,
  )

  -- rate limited, busy, not ready, draining
  unfoldable pub settle_capacity : OutboxRow → ClientError → Table → Table × RowOutcome
  unfolding next_attempt
  settle_capacity row e rows =
      (outbox_mark_retry row.id row.version (message e) (next_attempt row) false rows, stop_batch)

  -- everything else
  unfoldable pub settle_other : OutboxRow → ClientError → Table → Table × RowOutcome
  unfolding next_attempt
  settle_other row e rows =
      if leb other_bucket_exhaustion_threshold (row.other_bucket_attempts + 1)
      then (outbox_mark_failed row.id row.version "exhausted" (message e) rows, continue_batch)
      else (
        outbox_mark_retry row.id row.version (message e) (next_attempt row) true rows,
        continue_batch,
      )

  abbrev pub settle_failure : OutboxRow → ClientError → Table → Table × RowOutcome
  settle_failure row e rows =
      if is_permanent e
      then settle_permanent row e rows
      else if is_capacity e
      then settle_capacity row e rows
      else settle_other row e rows

  -- the second `match`, on the reply
  unfoldable pub settle : OutboxRow → Reply → Table → Table × RowOutcome
  settle row (ok result_ref) rows =
      (outbox_mark_done now_iso8601 row.id row.version result_ref rows, continue_batch)
  settle row (err (not_found m)) rows =
      if row.kind == "scheduler.delete"
      then (outbox_mark_done now_iso8601 row.id row.version none rows, continue_batch)
      else settle_failure row (not_found m) rows
  settle row (err (revoked m)) rows = (rows, generation_revoked)
  settle row (err connection_lost) rows = (rows, stop_batch)
  settle row (err e) rows = settle_failure row e rows

  -- `meanwhile` is what other transactions do to the table while the call is in flight
  unfoldable pub apply_dispatched :
      Dispatch → OutboxRow → (Call → Reply) → (Table → Table) → Table → Table × RowOutcome
  apply_dispatched (call c) row kernel meanwhile rows = settle row (kernel c) (meanwhile rows)
  apply_dispatched d row kernel meanwhile rows = (settle_uncalled row d rows, continue_batch)

  unfoldable pub apply_one :
      ReconcilerClients → OutboxRow → (Call → Reply) → (Table → Table) → Table → Table × RowOutcome
  apply_one clients row kernel meanwhile rows =
      if outbox_row_is_current row.id row.version rows
      then apply_dispatched (dispatch clients row) row kernel meanwhile rows
      else (rows, continue_batch)

pub data PumpControl : Type 0 where
  continue_pump stop_pump : PumpControl

module _ (s : Surroundings) (clients : ReconcilerClients) (kernel : Call → Reply) where
  -- the loop over the due rows, with no other writer in between
  unfoldable pub drain_rows : Table → Table → Table × PumpControl
  drain_rows [] rows = (rows, continue_pump)
  drain_rows (row ∷ due) rows =
      let (rows', outcome) = apply_one s clients row kernel (λ t. t) rows in
      elim outcome [
        | continue_batch ↦ drain_rows due rows'
        | stop_batch ↦ (rows', continue_pump)
        | generation_revoked ↦ (rows', stop_pump)
      ]

  unfoldable pub drain_pending_before : String → Table → Table × PumpControl
  unfolding drain_rows
  drain_pending_before now rows = drain_rows (outbox_due_pending now rows) rows
