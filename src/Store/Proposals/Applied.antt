-- ===== src/Store/Proposals/Applied.antt =====
-- src/store/repo.rs: what an `apply_proposal` that succeeds has done.
use sin.Prelude.{String, ◌≡◌, ◌⊎◌, refl, sym, ap, true, false, Option, none, some, arith, inl, inr}
use sin.Core.Types.{ProposalStatus}
use sin.Core.Proposal.Errors.{Sin90Op, Sin90Proposal, Result}
use sin.Core.Proposal.Errors
use sin.Core.Proposal.Validate.{validate, unwrap_or}
use sin.Store.Errors.{StoreResult, ok, found, not_found, >>=-eq-ok}
use sin.Store.Tables.{Tables, ProposalRow, AppliedProposal, Env, Tx, find_proposal}
use sin.Store.ApplyOp.{apply_ops}
use sin.Store.Tables.Statements.{begin}
use sin.Store.Proposals.{
  ApplyOutcome, set_applied, set_proposal_status, update_proposal, capability_of, validated,
  apply_claimed, apply_at, apply_proposal, replay,
}
use sin.Store.Proposals.Snapshot.{snapshot_ctx, build_snapshot}

-- the tables with the proposal claimed
abbrev pub claimed : String → Tables → Tables
claimed id db = update_proposal id (set_proposal_status ProposalStatus.applying) db

abbrev pub source_of : String → Tables → String
source_of id db = unwrap_or (capability_of id db.ai_calls) "direct"

abbrev pub applying : String → ProposalRow → Sin90Proposal
applying id row = record {
  id = id;
  status = ProposalStatus.applying;
  source = row.source;
  ops = row.ops;
  rationale = none;
}

abbrev pub receipt_of : String → Tx → AppliedProposal
receipt_of id tx = record { proposal_id = id; event_ids = tx.event_ids }

module _ (body_sha256 : String → String) (env : Env) (id : String) where
  pub record IsApplication (db : Tables) (outcome : ApplyOutcome) (after : Tables) : Type 0 where
    pub row : ProposalRow
    pub known : find_proposal id db ≡ some row
    pub pending : row.status ≡ ProposalStatus.pending
    pub valid :
        validate body_sha256
          (source_of id db)
          (applying id row)
          (snapshot_ctx (build_snapshot body_sha256 (claimed id db) row.ops))
        ≡ Errors.ok tt
    pub tx : Tx
    pub ran : apply_ops env (source_of id db) row.ops (begin 0 (claimed id db)) ≡ ok tx
    pub told : outcome ≡ record { receipt = receipt_of id tx; applied_now = true }
    pub stored :
        after
        ≡ update_proposal id (set_applied (receipt_of id tx) (env.now_iso8601 tx.calls)) tx.tables

  pub record IsReplay (db : Tables) (outcome : ApplyOutcome) (after : Tables) : Type 0 where
    pub row : ProposalRow
    pub receipt : AppliedProposal
    pub known : find_proposal id db ≡ some row
    pub applied : row.status ≡ ProposalStatus.applied
    pub stored : row.result ≡ some receipt
    pub told : outcome ≡ record { receipt = receipt; applied_now = false }
    pub same : after ≡ db

  validated_ok : (r : Result (Unit {0})) (u : Unit {0}) → validated r ≡ ok u → r ≡ Errors.ok tt
  validated_ok (Errors.ok x) u h = refl
  validated_ok (Errors.err e) u h = cc

  ok-injective : {A : Type 0} {x y : A} → StoreResult.ok x ≡ ok y → x ≡ y
  ok-injective h = cc

  pairs : {A B : Type 0} {x y : A × B} → StoreResult.ok x ≡ ok y → (x.0 ≡ y.0) × (x.1 ≡ y.1)
  pairs h = let e = ok-injective h in (ap (λ p. p.0) e, ap (λ p. p.1) e)

  apply_claimed_ok :
      (db : Tables) (row : ProposalRow) (outcome : ApplyOutcome) (after : Tables)
      → find_proposal id db ≡ some row
      → row.status ≡ ProposalStatus.pending
      → apply_claimed body_sha256 env id row db ≡ ok (outcome, after)
      → IsApplication db outcome after
  unfolding apply_claimed
  apply_claimed_ok db row outcome after f p h =
      let (u, e1, h1) = >>=-eq-ok (validated _) _ h in
      let (tx, e2, h2) =
        >>=-eq-ok (apply_ops env (source_of id db) row.ops (begin 0 (claimed id db))) _ h1 in
      record {
        row = row;
        known = f;
        pending = p;
        valid = validated_ok _ u e1;
        tx = tx;
        ran = e2;
        told = sym (pairs h2).0;
        stored = sym (pairs h2).1;
      }

  pub apply_proposal_ok :
      (db : Tables) (outcome : ApplyOutcome) (after : Tables)
      → apply_proposal body_sha256 env id db ≡ ok (outcome, after)
      → IsApplication db outcome after ⊎ IsReplay db outcome after
  unfolding apply_proposal
  apply_proposal_ok db outcome after h =
      let (row, e, h1) = >>=-eq-ok (found (find_proposal id db) _) _ h in
      by_status row (known row e) row.status refl h1
    where
      known :
          (row : ProposalRow)
          → found (find_proposal id db) (not_found "proposal" id) ≡ ok row
          → find_proposal id db ≡ some row
      known row e = ground (arith, e)

      replayed :
          (row : ProposalRow)
          → find_proposal id db ≡ some row
          → row.status ≡ ProposalStatus.applied
          → (o : Option AppliedProposal) → row.result ≡ o
          → replay body_sha256 env o db ≡ ok (outcome, after)
          → IsReplay db outcome after
      replayed row f s none r h = cc
      replayed row f s (some receipt) r h = record {
        row = row;
        receipt = receipt;
        known = f;
        applied = s;
        stored = r;
        told = sym (pairs h).0;
        same = sym (pairs h).1;
      }

      by_status :
          (row : ProposalRow)
          → find_proposal id db ≡ some row
          → (s : ProposalStatus) → row.status ≡ s
          → apply_at body_sha256 env id row s db ≡ ok (outcome, after)
          → IsApplication db outcome after ⊎ IsReplay db outcome after
      by_status row f ProposalStatus.pending s h = inl (apply_claimed_ok db row outcome after f s h)
      by_status row f ProposalStatus.applied s h = inr (replayed row f s row.result refl h)
      by_status row f ProposalStatus.applying s h = cc
      by_status row f ProposalStatus.rejected s h = cc
