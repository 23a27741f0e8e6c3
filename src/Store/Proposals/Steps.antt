-- ===== src/Store/Proposals/Steps.antt =====
-- src/store/repo.rs: sequences of submissions, applications and rejections. An operation that fails
-- changes nothing, since its transaction is rolled back.
use sin.Prelude.{
  String, ◌≡◌, ◌⊎◌, refl, sym, ◌∙◌, ap, Option, some, List, [], ◌∷◌, ◌++◌, arith, Bool-cases,
  Option-cases, inl, inr,
}
use sin.Core.Types.{ProposalStatus}
use sin.Core.Proposal.Errors.{Sin90Op, Sin90Proposal}
use sin.Core.Proposal.Validate.{validate}
use sin.Store.Errors.{Event, StoreError, StoreResult, ok, >>=-eq-ok}
use sin.Store.Rows.{is_some, select, update}
use sin.Store.Tables.{Tables, ProposalRow, Rejection, Env, Tx, find_proposal}
use sin.Store.Tables.Statements.{append_event, event_id}
use sin.Store.Tables.Statements.{begin}
use sin.Store.Proposals.{
  ApplyOutcome, RejectOutcome, submit_new, submit_proposal, apply_proposal, reject_claimed,
  reject_at, reject_proposal, set_rejected, pending_row, validated,
}
use sin.Store.Proposals.Snapshot.{snapshot_ctx, build_snapshot}

module _ (body_sha256 : String → String) (ops_json : List Sin90Op → String) where
  pub data Step (db : Tables) : Tables → Type 0 where
    submitted :
        (env : Env) (p : Sin90Proposal) {after : Tables}
        → submit_proposal body_sha256 ops_json env p db ≡ ok after
        → Step db after
    applied :
        (env : Env) (id : String) (outcome : ApplyOutcome) {after : Tables}
        → apply_proposal body_sha256 env id db ≡ ok (outcome, after)
        → Step db after
    rejected :
        (env : Env) (id : String) (reason : Option String) (outcome : RejectOutcome)
        {after : Tables}
        → reject_proposal env id reason db ≡ ok (outcome, after)
        → Step db after

  pub data Steps (db : Tables) : Tables → Type 0 where
    none_yet : Steps db db
    then_ : {mid after : Tables} → Steps db mid → Step mid after → Steps db after

-- what an event leaves
pub append_event_ok :
    (env : Env) (columns : String → Event) (tx next : Tx)
    → append_event env columns tx ≡ ok next
    → (next.tables.proposals ≡ tx.tables.proposals) × (next.tables.tasks ≡ tx.tables.tasks)
unfolding append_event
append_event_ok env columns tx next h =
    elim (Bool-cases (is_some (select event_id (env.ulid tx.calls) tx.tables.events))) [
      | inl e ↦ absurd (refused (rw e at h))
      | inr e ↦
          let same = ok-injective (rw e at h) in
          (ap (λ t. t.tables.proposals) (sym same), ap (λ t. t.tables.tasks) (sym same))
    ]
  where
    ok-injective : {x y : Tx} → StoreResult.ok x ≡ ok y → x ≡ y
    ok-injective e = cc

    refused : {e : StoreError} {x : Tx} → StoreResult.err e ≡ ok x → ⊥
    refused h = cc

module _ (body_sha256 : String → String) (ops_json : List Sin90Op → String) (env : Env) where
  submit_new_ok :
      (p : Sin90Proposal) (db after : Tables)
      → submit_new body_sha256 ops_json env p db ≡ ok after
      → (after.proposals ≡ db.proposals ++ (pending_row p (env.now_iso8601 0) ∷ []))
        × (after.tasks ≡ db.tasks)
  unfolding submit_new
  submit_new_ok p db after h =
      let (u, e1, h1) =
        >>=-eq-ok
          (validated
            (validate body_sha256 "direct" p (snapshot_ctx (build_snapshot body_sha256 db p.ops))))
          _ h in
      let (tx, e2, h2) = >>=-eq-ok (append_event env _ (begin 1 _)) _ h1 in
      let kept = append_event_ok env _ _ tx e2 in
      (
        ap Tables.proposals (sym (ok-injective h2)) ∙ kept.0,
        ap Tables.tasks (sym (ok-injective h2)) ∙ kept.1,
      )
    where
      ok-injective : {x y : Tables} → StoreResult.ok x ≡ ok y → x ≡ y
      ok-injective e = cc

  pub submit_ok :
      (p : Sin90Proposal) (db after : Tables)
      → submit_proposal body_sha256 ops_json env p db ≡ ok after
      → (after ≡ db)
        ⊎ ((after.proposals ≡ db.proposals ++ (pending_row p (env.now_iso8601 0) ∷ []))
            × (after.tasks ≡ db.tasks))
  unfolding submit_proposal
  submit_ok p db after h = elim (Option-cases (find_proposal p.id db)) [
    | inl e ↦ inr (submit_new_ok p db after (rw e at h))
    | inr (row, e) ↦ inl (ground (arith, e))
  ]

module _ (env : Env) (id : String) (reason : Option String) where
  reject_claimed_ok :
      (row : ProposalRow) (db : Tables) (outcome : RejectOutcome) (after : Tables)
      → reject_claimed env id reason row db ≡ ok (outcome, after)
      → (after.proposals ≡ update ProposalRow.id id (set_rejected (env.now_iso8601 0)) db.proposals)
        × (after.tasks ≡ db.tasks)
  unfolding reject_claimed
  reject_claimed_ok row db outcome after h =
      elim (Bool-cases (is_some (select Rejection.id (env.ulid 1) db.rejections))) [
        | inl e ↦ absurd (refused (rw e at h))
        | inr e ↦
            let (tx, e2, h2) = >>=-eq-ok (append_event env _ (begin 2 _)) _ (rw e at h) in
            let kept = append_event_ok env _ _ tx e2 in
            (
              ap Tables.proposals (sym (after_injective h2)) ∙ kept.0,
              ap Tables.tasks (sym (after_injective h2)) ∙ kept.1,
            )
      ]
    where
      refused : {e : StoreError} {x : RejectOutcome × Tables} → StoreResult.err e ≡ ok x → ⊥
      refused h = cc

      ok-injective : {x y : RejectOutcome × Tables} → StoreResult.ok x ≡ ok y → x ≡ y
      ok-injective e = cc

      after_injective : {x y : RejectOutcome × Tables} → StoreResult.ok x ≡ ok y → x.1 ≡ y.1
      after_injective h = ap (λ p. p.1) (ok-injective h)

  pub reject_ok :
      (db : Tables) (outcome : RejectOutcome) (after : Tables)
      → reject_proposal env id reason db ≡ ok (outcome, after)
      → (row : ProposalRow) × (find_proposal id db ≡ some row)
        × (row.status ≡ ProposalStatus.pending)
        × (after.proposals
            ≡ update ProposalRow.id id (set_rejected (env.now_iso8601 0)) db.proposals)
        × (after.tasks ≡ db.tasks)
  unfolding reject_proposal
  reject_ok db outcome after h = elim (Option-cases (find_proposal id db)) [
    | inl e ↦ absurd (refused (rw e at h))
    | inr (row, e) ↦ by_status row e row.status refl (rw e at h)
  ]
    where
      refused : {e : StoreError} {x : RejectOutcome × Tables} → StoreResult.err e ≡ ok x → ⊥
      refused h = cc

      by_status :
          (row : ProposalRow)
          → find_proposal id db ≡ some row
          → (s : ProposalStatus) → row.status ≡ s
          → reject_at env id reason row s db ≡ ok (outcome, after)
          → (row : ProposalRow) × (find_proposal id db ≡ some row)
            × (row.status ≡ ProposalStatus.pending)
            × (after.proposals
                ≡ update ProposalRow.id id (set_rejected (env.now_iso8601 0)) db.proposals)
            × (after.tasks ≡ db.tasks)
      by_status row f ProposalStatus.pending s h =
          let kept = reject_claimed_ok row db outcome after h in (row, f, s, kept.0, kept.1)
      by_status row f ProposalStatus.applied s h = absurd (refused h)
      by_status row f ProposalStatus.applying s h = absurd (refused h)
      by_status row f ProposalStatus.rejected s h = absurd (refused h)
