-- ===== src/Store/Outbox.antt =====
-- src/store/repo.rs: the table `sin90_outbox` (migrations 0001, 0005, 0011, 0012, 0013) and the
-- statements on it. A table is the list of its rows in rowid order.
pub mod Live
pub mod Formed
pub mod Due
use sin.Prelude.{
  ℕ, ◌+◌, String, Bool, true, false, ◌&&◌, ◌||◌, not, Option, none, some, List, [], ◌∷◌, ◌++◌, ◌==◌,
  eqb, if◌then◌else◌, map,
}
use sin.Prelude.Text.{str_leb, str_ltb}
use sin.Store.Json.{Value}

pub data OutboxStatus : Type 0 where
  pending failed done : OutboxStatus

-- a row with all its columns; `OutboxRow` of the source selects some of them
pub record OutboxRow : Type 0 where
  pub id : String
  pub kind : String
  pub dedup_key : String
  pub desired : Value
  pub status : OutboxStatus
  pub attempts : ℕ
  pub version : ℕ
  pub other_bucket_attempts : ℕ
  pub failure_kind : Option String
  pub last_error : Option String
  pub next_attempt_at : Option String
  pub created_at : String
  pub done_at : Option String
  pub result_ref : Option String

abbrev pub Table : Type 0
Table = List OutboxRow

abbrev pub is_pending : OutboxStatus → Bool
is_pending pending = true
is_pending _ = false

-- `status IN ('pending', 'failed')`
abbrev pub is_live : OutboxStatus → Bool
is_live done = false
is_live _ = true

abbrev pub is_live_for : String → OutboxRow → Bool
is_live_for key r = is_live r.status && r.dedup_key == key

-- `ORDER BY created_at DESC LIMIT 1`: the later of two candidates, the earlier row on a tie
abbrev later : OutboxRow → Option OutboxRow → Option OutboxRow
later r none = some r
later r (some q) = if str_ltb r.created_at q.created_at then some q else some r

unfoldable pub find_live : String → Table → Option OutboxRow
find_live key [] = none
find_live key (r ∷ rows) =
    let rest = find_live key rows in if is_live_for key r then later r rest else rest

-- the `UPDATE` of `upsert_outbox`, at one row
unfoldable pub overwrite : String → Value → OutboxRow → OutboxRow
overwrite kind desired r = record r {
  kind = kind;
  desired = desired;
  status = pending;
  attempts = 0;
  version = r.version + 1;
  other_bucket_attempts = 0;
  failure_kind = none;
  last_error = none;
  next_attempt_at = none;
}

-- the `INSERT` of `upsert_outbox`, with the columns' defaults
unfoldable pub fresh_row : (id now kind dedup_key : String) → Value → OutboxRow
fresh_row id now kind dedup_key desired = record {
  id = id;
  kind = kind;
  dedup_key = dedup_key;
  desired = desired;
  status = pending;
  attempts = 0;
  version = 1;
  other_bucket_attempts = 0;
  failure_kind = none;
  last_error = none;
  next_attempt_at = none;
  created_at = now;
  done_at = none;
  result_ref = none;
}

-- `UPDATE ... WHERE` a test holds
abbrev pub update_where : (OutboxRow → Bool) → (OutboxRow → OutboxRow) → Table → Table
update_where p f [] = []
update_where p f (r ∷ rows) = (if p r then f r else r) ∷ update_where p f rows

-- the `if let Some(id) = existing`
unfoldable pub write_outbox :
    Option OutboxRow → (id now kind dedup_key : String) → Value → Table → Table
write_outbox (some r) id now kind dedup_key desired rows =
    update_where (λ q. q.id == r.id) (overwrite kind desired) rows
write_outbox none id now kind dedup_key desired rows =
    rows ++ fresh_row id now kind dedup_key desired ∷ []

-- `id` and `now` are what `ulid()` and `now_iso8601()` return, if they are called
unfoldable pub upsert_outbox : (id now kind dedup_key : String) → Value → Table → Table
unfolding write_outbox
upsert_outbox id now kind dedup_key desired rows =
    write_outbox (find_live dedup_key rows) id now kind dedup_key desired rows

-- `WHERE id = ? AND status = 'pending' AND version = ?`
abbrev pub at_version : String → ℕ → OutboxRow → Bool
at_version id version r = r.id == id && is_pending r.status && eqb r.version version

unfoldable pub outbox_row_is_current : String → ℕ → Table → Bool
outbox_row_is_current id version [] = false
outbox_row_is_current id version (r ∷ rows) =
    at_version id version r || outbox_row_is_current id version rows

abbrev pub mark_done : String → Option String → OutboxRow → OutboxRow
mark_done now result_ref r = record r { status = done; done_at = some now; result_ref = result_ref }

unfoldable pub outbox_mark_done : (now id : String) → ℕ → Option String → Table → Table
outbox_mark_done now id version result_ref =
    update_where (at_version id version) (mark_done now result_ref)

abbrev pub mark_retry : String → String → Bool → OutboxRow → OutboxRow
mark_retry error next_attempt_at bump r = record r {
  attempts = r.attempts + 1;
  other_bucket_attempts = if bump then r.other_bucket_attempts + 1 else r.other_bucket_attempts;
  last_error = some error;
  next_attempt_at = some next_attempt_at;
}

unfoldable pub outbox_mark_retry : String → ℕ → (error next : String) → Bool → Table → Table
outbox_mark_retry id version error next bump =
    update_where (at_version id version) (mark_retry error next bump)

abbrev pub mark_failed : String → String → OutboxRow → OutboxRow
mark_failed failure_kind error r = record r {
  status = failed;
  attempts = r.attempts + 1;
  failure_kind = some failure_kind;
  last_error = some error;
  next_attempt_at = none;
}

unfoldable pub outbox_mark_failed : String → ℕ → (failure_kind error : String) → Table → Table
outbox_mark_failed id version failure_kind error =
    update_where (at_version id version) (mark_failed failure_kind error)

-- `SELECT 1 ... WHERE dedup_key = ? AND status = 'pending'`
unfoldable pub already_pending : String → Table → Bool
already_pending key [] = false
already_pending key (r ∷ rows) =
    (r.dedup_key == key && is_pending r.status) || already_pending key rows

abbrev pub is_due : String → OutboxRow → Bool
is_due now r = is_pending r.status && due_by r.next_attempt_at
  where
    due_by : Option String → Bool
    due_by none = true
    due_by (some t) = str_leb t now

-- `ORDER BY created_at ASC, rowid ASC`: insertion keeps the rowid order among equal times
abbrev pub insert_by_time : OutboxRow → Table → Table
insert_by_time r [] = r ∷ []
insert_by_time r (q ∷ rows) =
    if str_leb r.created_at q.created_at then r ∷ q ∷ rows else q ∷ insert_by_time r rows

unfoldable pub outbox_due_pending : String → Table → Table
outbox_due_pending now [] = []
outbox_due_pending now (r ∷ rows) =
    let rest = outbox_due_pending now rows in if is_due now r then insert_by_time r rest else rest
