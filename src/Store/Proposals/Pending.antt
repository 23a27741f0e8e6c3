-- ===== src/Store/Proposals/Pending.antt =====
-- src/store/repo.rs: how `apply_proposal` ends on a pending proposal.
use sin.Prelude.{is_empty, String, ◌≡◌, ◌⊎◌, refl, ◌∙◌, ap, true, some, inl, inr}
use sin.Core.Types.{ProposalStatus}
use sin.Core.Proposal.Errors.{Sin90Op, Sin90Proposal, Result, ProposalError}
use sin.Core.Proposal.Errors
use sin.Core.Proposal.Working.{ValidationCtx, Working, new}
use sin.Core.Proposal.Validate.{validate, validate_ops}
use sin.Store.Errors.{StoreError, StoreResult, proposal, Ends, returns, fails, Ends-bind, Ends-map}
use sin.Store.Tables.{Tables, ProposalRow, Env, find_proposal}
use sin.Store.ApplyOp.Agrees.{new-Agrees}
use sin.Store.ApplyOp.Refines.{Passes, Stops, apply_ops_refines}
use sin.Store.Tables.Statements.{begin}
use sin.Store.Proposals.{ApplyOutcome, apply_proposal, apply_claimed, apply_at}
use sin.Store.Proposals.Snapshot.{live_ctx}
use sin.Store.Proposals.Loaded.{validate-build_snapshot}
use sin.Store.Proposals.Applied.{claimed, source_of, applying}

module _ (body_sha256 : String → String) (source : String) where
  validate_ok :
      (p : Sin90Proposal) (ctx : ValidationCtx)
      → validate body_sha256 source p ctx ≡ Errors.ok tt
      → (w : Working) × (validate_ops body_sha256 source p.ops (new ctx) ≡ Errors.ok w)
  unfolding validate
  validate_ok p ctx h =
      let (u, e1, h1) = Errors.>>=-eq-ok (Errors.refuse_if (is_empty p.ops) Errors.empty) _ h in
      let (w, e2, h2) = Errors.>>=-eq-ok (validate_ops body_sha256 source p.ops (new ctx)) _ h1 in
      (w, e2)

verdict_cases :
    (r : Result (Unit {0})) → (r ≡ Errors.ok tt) ⊎ ((e : ProposalError) × (r ≡ Errors.err e))
verdict_cases (Errors.ok u) = inl refl
verdict_cases (Errors.err e) = inr (e, refl)

module _ (body_sha256 : String → String) (id : String) where
  -- why a pending proposal is not applied
  pub data NotApplied (env : Env) (db : Tables) (row : ProposalRow) : StoreError → Type 0 where
    invalid_proposal :
        (e : ProposalError)
        → validate body_sha256 (source_of id db) (applying id row) (live_ctx body_sha256 db)
          ≡ Errors.err e
        → NotApplied env db row (proposal e)
    stopped :
        (e : StoreError)
        → Stops body_sha256 env (source_of id db) row.ops (begin 0 (claimed id db)) e
        → NotApplied env db row e

  runs_claimed :
      (env : Env) (db : Tables) (row : ProposalRow)
      → find_proposal id db ≡ some row
      → row.status ≡ ProposalStatus.pending
      → apply_proposal body_sha256 env id db ≡ apply_claimed body_sha256 env id row db
  unfolding apply_proposal
  runs_claimed env db row f s =
      let at : apply_proposal body_sha256 env id db
          ≡ apply_at body_sha256 env id row row.status db =
        rw f refl in
      at ∙ ap (λ status. apply_at body_sha256 env id row status db) s

  abbrev Applies : Env → Tables → ProposalRow → StoreResult (ApplyOutcome × Tables) → Type 0
  Applies env db row r =
      Ends
        (λ r.
          (r.0.applied_now ≡ true)
          × (validate body_sha256 (source_of id db) (applying id row) (live_ctx body_sha256 db)
              ≡ Errors.ok tt)
          × Passes body_sha256 env (source_of id db) row.ops (begin 0 (claimed id db)))
        (NotApplied env db row) r

  apply_claimed_ends :
      (env : Env) (db : Tables) (row : ProposalRow)
      → Applies env db row (apply_claimed body_sha256 env id row db)
  unfolding apply_claimed
  apply_claimed_ends env db row =
      let live = live_ctx body_sha256 db in
      let source = source_of id db in
      let judged = validate-build_snapshot body_sha256 (claimed id db) source (applying id row) in
      elim (verdict_cases (validate body_sha256 source (applying id row) live)) [
        | inl valid ↦
            let (w, accepted) = validate_ok body_sha256 source (applying id row) live valid in
            rw (judged ∙ valid) (
              Ends-bind
                (Ends-map (λ tx a. a) (λ e r. stopped e r)
                  (apply_ops_refines body_sha256 env source row.ops (new live) w
                    (begin 0 (claimed id db)) (new-Agrees live) accepted))
                λ tx a. returns _ (refl, valid, a.1))
        | inr (e, invalid) ↦ rw (judged ∙ invalid) (fails (proposal e) (invalid_proposal e invalid))
      ]

  -- A pending proposal is applied, and then it was valid over the tables as they are and nothing stood
  -- against any op on the tables that it met; or the validator refuses it over those tables; or it stops
  -- at an op that the tables it meets refuse. What stands against an op, and gives its error: the task of
  -- a transition, a carry or an assignment is in a week that is reviewing or closed; a task is carried
  -- into the week that it is in; an allocation names a direction that is not there; an order names a task
  -- that is not there in its week. Else the error is the constraint of a table. So no op of a valid
  -- proposal fails with a transition that is not allowed or a conflict, nor, but in an order, with an
  -- unknown task.
  pub apply_pending_ends :
      (env : Env) (db : Tables) (row : ProposalRow)
      → find_proposal id db ≡ some row
      → row.status ≡ ProposalStatus.pending
      → Applies env db row (apply_proposal body_sha256 env id db)
  apply_pending_ends env db row f s =
      rw (runs_claimed env db row f s) (apply_claimed_ends env db row)
