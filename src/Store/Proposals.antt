-- ===== src/Store/Proposals.antt =====
-- src/store/repo.rs: proposals, from their submission to their application or rejection. SHA-256 (the
-- crates sha2 and hex) is the parameter `body_sha256`, and the text that serde_json makes of a list of
-- ops the parameter `ops_json`.
pub mod Snapshot
pub mod Loads
pub mod Loaded
pub mod Stamps
pub mod Applied
pub mod Once
pub mod Steps
pub mod Final
pub mod Pending
use Prim.Native.String.{◌++◌}
use sin.Prelude.{
  ℕ, suc, ◌+◌, String, Bool, true, false, ◌&&◌, Option, none, some, List, [], ◌∷◌, ◌==◌,
  if◌then◌else◌, length, is_empty,
}
use sin.Prelude.Text.{str_ltb}
use sin.Prelude.Decimal.{to_decimal}
use sin.Core.Types.{ProposalStatus}
use sin.Core.Proposal.Errors.{
  Sin90Op, create_area, create_task, create_direction, transition_task, create_tasks, reorder_tasks,
  adjust_rhythm, carry_over_task, assign_task_direction, draft_review_body, Sin90Proposal,
  ProposalSource, Result,
}
use sin.Core.Proposal.Errors
use sin.Core.Proposal.Validate.{validate, unwrap_or}
use sin.Store.Json.{Value, str, num, obj, field, end, opt_str}
use sin.Store.Errors.{
  not_found, conflict, proposal, internal, unique_failed, StoreResult, ok, err, ◌>>=◌, ◌>>◌, found,
  fail_if,
}
use sin.Store.Rows.{is_some, select, update, append}
use sin.Store.Tables.{
  Tables, ProposalRow, AppliedProposal, Rejection, AiCall, Env, Tx, find_proposal,
}
use sin.Store.Tables.Statements.{same_text, event, append_event, begin}
use sin.Store.ApplyOp.{apply_ops}
use sin.Store.Proposals.Snapshot.{snapshot_ctx, build_snapshot}

pub record ApplyOutcome : Type 0 where
  pub receipt : AppliedProposal
  pub applied_now : Bool

pub record RejectOutcome : Type 0 where
  pub capability_source : String
  pub ops_summary : String

-- the serde tag of an op
abbrev pub op_kind : Sin90Op → String
op_kind (create_area title) = "create_area"
op_kind (create_task title d p k e m) = "create_task"
op_kind (create_direction title window) = "create_direction"
op_kind (transition_task id to) = "transition_task"
op_kind (create_tasks week tasks) = "create_tasks"
op_kind (reorder_tasks week order) = "reorder_tasks"
op_kind (adjust_rhythm id alloc) = "adjust_rhythm"
op_kind (carry_over_task id week) = "carry_over_task"
op_kind (assign_task_direction id d) = "assign_task_direction"
op_kind (draft_review_body id base body) = "draft_review_body"

-- `*counts.entry(kind).or_insert(0) += 1` on a `BTreeMap`, whose entries are in the order of their keys
unfoldable pub count_kind : String → List (String × ℕ) → List (String × ℕ)
count_kind kind [] = (kind, 1) ∷ []
count_kind kind ((k, n) ∷ counts) =
    let rest = count_kind kind counts in
    if k == kind
    then (k, n + 1) ∷ counts
    else if str_ltb kind k
    then (kind, 1) ∷ (k, n) ∷ counts
    else (k, n) ∷ rest

unfoldable pub count_kinds : List Sin90Op → List (String × ℕ) → List (String × ℕ)
unfolding count_kind
count_kinds [] counts = counts
count_kinds (op ∷ ops) counts = count_kinds ops (count_kind (op_kind op) counts)

-- "{k} x{n}", joined by commas
unfoldable pub join_counts : List (String × ℕ) → String
unfolding to_decimal
join_counts [] = ""
join_counts ((k, n) ∷ []) = k ++ " x" ++ to_decimal n
join_counts ((k, n) ∷ rest) = k ++ " x" ++ to_decimal n ++ "," ++ join_counts rest

unfoldable pub summarize_ops : List Sin90Op → String
unfolding count_kinds join_counts
summarize_ops ops = join_counts (count_kinds ops [])

abbrev pub source_wire : ProposalSource → String
source_wire ProposalSource.local_brain = "local_brain"
source_wire ProposalSource.executive = "executive"
source_wire ProposalSource.rule = "rule"

-- `validate(...)?`
abbrev pub validated : Result (Unit {0}) → StoreResult (Unit {0})
validated (Errors.ok u) = ok tt
validated (Errors.err e) = err (proposal e)

-- `SELECT task_kind FROM sin90_ai_calls WHERE proposal_id = ? AND ok = 1 LIMIT 1`
unfoldable pub capability_of : String → List AiCall → Option String
capability_of id [] = none
capability_of id (call ∷ calls) =
    let rest = capability_of id calls in
    if same_text call.proposal_id id && call.is_ok then some call.task_kind else rest

abbrev pub set_proposal_status : ProposalStatus → ProposalRow → ProposalRow
set_proposal_status to row = record row { status = to }

abbrev pub set_applied : AppliedProposal → String → ProposalRow → ProposalRow
set_applied receipt now row = record row {
  status = ProposalStatus.applied;
  result = some receipt;
  decided_at = some now;
}

abbrev pub set_rejected : String → ProposalRow → ProposalRow
set_rejected now row = record row { status = ProposalStatus.rejected; decided_at = some now }

abbrev pub update_proposal : String → (ProposalRow → ProposalRow) → Tables → Tables
update_proposal id set db = record db { proposals = update ProposalRow.id id set db.proposals }

abbrev pub pending_row : Sin90Proposal → String → ProposalRow
pending_row p now = record {
  id = p.id;
  status = ProposalStatus.pending;
  source = p.source;
  ops = p.ops;
  rationale = p.rationale;
  result = none;
  created_at = now;
  decided_at = none;
}

module _ (body_sha256 : String → String) (ops_json : List Sin90Op → String) (env : Env) where
  -- from the `None` arm of `submit_proposal` on
  unfoldable pub submit_new : Sin90Proposal → Tables → StoreResult Tables
  submit_new p db = do
    let now = env.now_iso8601 0
    validated (validate body_sha256 "direct" p (snapshot_ctx (build_snapshot body_sha256 db p.ops)))
    let payload = obj (
        field "id" (str p.id) (
          field "source" (str (source_wire p.source)) (field "ops_count" (num (length p.ops)) end)))
    tx ←
        append_event env (event "proposal" p.id "submitted" none (some "pending") payload now)
          (begin 1 (record db { proposals = append db.proposals (pending_row p now) }))
    ok tx.tables

  abbrev pub submit_known : Sin90Proposal → Tables → Option ProposalRow → StoreResult Tables
  submit_known p db none = submit_new p db
  submit_known p db (some row) =
      if ops_json row.ops == ops_json p.ops then ok db else err (conflict "proposal" p.id)

  unfoldable pub submit_proposal : Sin90Proposal → Tables → StoreResult Tables
  submit_proposal p db = submit_known p db (find_proposal p.id db)

module _ (body_sha256 : String → String) (env : Env) where
  -- the rest of `apply_proposal` with a row that was claimed
  unfoldable pub apply_claimed : String → ProposalRow → Tables → StoreResult (ApplyOutcome × Tables)
  apply_claimed id row db = do
    let claimed = update_proposal id (set_proposal_status ProposalStatus.applying) db
    let source = unwrap_or (capability_of id claimed.ai_calls) "direct"
    let applying : Sin90Proposal = record {
      id = id;
      status = ProposalStatus.applying;
      source = row.source;
      ops = row.ops;
      rationale = none;
    }
    validated (
        validate body_sha256 source applying
          (snapshot_ctx (build_snapshot body_sha256 claimed row.ops)))
    tx ← apply_ops env source row.ops (begin 0 claimed)
    let receipt : AppliedProposal = record { proposal_id = id; event_ids = tx.event_ids }
    let now = env.now_iso8601 tx.calls
    ok (
      record { receipt = receipt; applied_now = true },
      update_proposal id (set_applied receipt now) tx.tables,
    )

  -- an applied proposal: the receipt that is stored
  abbrev pub replay : Option AppliedProposal → Tables → StoreResult (ApplyOutcome × Tables)
  replay none db = err internal
  replay (some receipt) db = ok (record { receipt = receipt; applied_now = false }, db)

  abbrev pub apply_at :
      String → ProposalRow → ProposalStatus → Tables → StoreResult (ApplyOutcome × Tables)
  apply_at id row ProposalStatus.pending db = apply_claimed id row db
  apply_at id row ProposalStatus.applied db = replay row.result db
  apply_at id row ProposalStatus.applying db = err (conflict "proposal" id)
  apply_at id row ProposalStatus.rejected db = err (conflict "proposal" id)

  unfoldable pub apply_proposal : String → Tables → StoreResult (ApplyOutcome × Tables)
  apply_proposal id db = do
    row ← found (find_proposal id db) (not_found "proposal" id)
    apply_at id row row.status db

module _ (env : Env) where
  -- the rest of `reject_proposal` with a row that was claimed
  unfoldable pub reject_claimed :
      String → Option String → ProposalRow → Tables → StoreResult (RejectOutcome × Tables)
  reject_claimed id reason row db = do
    let now = env.now_iso8601 0
    let claimed = update_proposal id (set_rejected now) db
    let summary = summarize_ops row.ops
    let source = unwrap_or (capability_of id claimed.ai_calls) "direct"
    let rejection : Rejection = record {
      id = env.ulid 1;
      proposal_id = id;
      capability_source = source;
      proposal_source = row.source;
      ops_summary = summary;
      rationale = row.rationale;
      reason = reason;
      proposed_at = row.created_at;
      rejected_at = now;
    }
    fail_if (is_some (select Rejection.id (env.ulid 1) db.rejections))
        (unique_failed "sin90_proposal_rejections")
    let payload = obj (
        field "proposal_id" (str id)
          (field "capability_source" (str source) (field "reason" (opt_str reason) end)))
    tx ←
        append_event env
          (event "proposal" id "rejected" (some "pending") (some "rejected") payload now)
          (begin 2 (record claimed { rejections = append claimed.rejections rejection }))
    ok (record { capability_source = source; ops_summary = summary }, tx.tables)

  abbrev pub reject_at :
      String
      → Option String
      → ProposalRow
      → ProposalStatus
      → Tables
      → StoreResult (RejectOutcome × Tables)
  reject_at id reason row ProposalStatus.pending db = reject_claimed id reason row db
  reject_at id reason row _ db = err (conflict "proposal" id)

  unfoldable pub reject_proposal :
      String → Option String → Tables → StoreResult (RejectOutcome × Tables)
  reject_proposal id reason db = do
    row ← found (find_proposal id db) (not_found "proposal" id)
    reject_at id reason row row.status db
