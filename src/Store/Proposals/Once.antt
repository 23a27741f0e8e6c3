-- ===== src/Store/Proposals/Once.antt =====
-- src/store/repo.rs: a proposal that was applied, when it is applied or rejected again, and its receipt.
use mathlib.Core.List.{map-append}
use mathlib.Core.List.{append_assoc, append-nil}
use sin.Prelude.{
  String, ◌≡◌, refl, sym, ◌∙◌, ap, subst, true, false, Option, some, List, [], ◌∷◌, ◌++◌, map, inl,
  inr,
}
use sin.Core.Types.{ProposalStatus}
use sin.Store.Errors.{Event, ok, err, conflict, Ends, Ends-ok}
use sin.Store.Rows.{column, select, select-update_same}
use sin.Store.Tables.{Tables, ProposalRow, AppliedProposal, Env, Tx, find_proposal}
use sin.Store.Tables.Statements.{event_id}
use sin.Store.ApplyOp.Keeps.{Keeps, Any}
use sin.Store.ApplyOp.Kept.{apply_ops_keeps}
use sin.Store.Tables.Statements.{begin}
use sin.Store.Proposals.{
  ApplyOutcome, set_applied, set_proposal_status, apply_proposal, reject_proposal,
}
use sin.Store.Proposals.Applied.{claimed, source_of, receipt_of, IsApplication, apply_proposal_ok}

-- what a batch leaves of the proposals and the events that were there
pub record IsFramed (before : Tables) (tx : Tx) : Type 0 where
  pub proposals : tx.tables.proposals ≡ before.proposals
  pub appended : List Event
  pub events : tx.tables.events ≡ before.events ++ appended
  pub ids : tx.event_ids ≡ map event_id appended

frame_kept : (before : Tables) (env : Env) (source : String) → Keeps env source (IsFramed before)
frame_kept before env source = record {
  clock = λ tx h. record {
    proposals = h.proposals;
    appended = h.appended;
    events = h.events;
    ids = h.ids;
  };
  event = λ columns tx named h. record {
    proposals = h.proposals;
    appended = h.appended ++ (columns (env.ulid tx.calls) ∷ []);
    events =
        ap (λ es. es ++ (columns (env.ulid tx.calls) ∷ [])) h.events
        ∙ append_assoc before.events h.appended (columns (env.ulid tx.calls) ∷ []);
    ids =
        ap (λ is. is ++ (env.ulid tx.calls ∷ [])) h.ids
        ∙ sym (
            map-append event_id h.appended (columns (env.ulid tx.calls) ∷ [])
            ∙ ap (λ i. map event_id h.appended ++ (i ∷ [])) (named (env.ulid tx.calls)));
  };
  area = λ title slug now tx h. rest tx _ h refl refl refl;
  direction = λ title window now tx h. rest tx _ h refl refl refl;
  backlog = λ d parent title kind energy est now tx h. rest tx _ h refl refl refl;
  planned = λ week place t now tx h. rest tx _ h refl refl refl;
  status = λ id from to now tx h e a. rest tx _ h refl refl refl;
  place = λ id n now tx h. rest tx _ h refl refl refl;
  rhythm = λ id alloc now tx h. rest tx _ h refl refl refl;
  carried = λ id week now row evals old tx hb f h c i. rest tx _ h refl refl refl;
  assign = λ id d now tx h inbox. rest tx _ h refl refl refl;
  body = λ id text now tx h. rest tx _ h refl refl refl;
}
  where
    rest :
        (tx next : Tx)
        → IsFramed before tx
        → next.tables.proposals ≡ tx.tables.proposals
        → next.tables.events ≡ tx.tables.events
        → next.event_ids ≡ tx.event_ids
        → IsFramed before next
    rest tx next h p e i = record {
      proposals = p ∙ h.proposals;
      appended = h.appended;
      events = e ∙ h.events;
      ids = i ∙ h.ids;
    }

module _ (body_sha256 : String → String) (id : String) where
  pub framed :
      (env : Env) (db : Tables) (outcome : ApplyOutcome) (after : Tables)
      (a : IsApplication body_sha256 env id db outcome after)
      → IsFramed (claimed id db) a.tx
  framed env db outcome after a = Ends-ok (
      subst (Ends (IsFramed (claimed id db)) Any) a.ran (
        apply_ops_keeps (frame_kept (claimed id db) env (source_of id db)) a.row.ops
          (begin 0 (claimed id db)) start))
    where
      start : IsFramed (claimed id db) (begin 0 (claimed id db))
      start = record {
        proposals = refl;
        appended = [];
        events = sym (append-nil db.events);
        ids = refl;
      }

  -- the row of the proposal after an application
  applied_row :
      (env : Env) (db : Tables) (outcome : ApplyOutcome) (after : Tables)
      → IsApplication body_sha256 env id db outcome after
      → (row : ProposalRow) × (find_proposal id after ≡ some row)
        × (row.status ≡ ProposalStatus.applied)
        × (row.result ≡ some outcome.receipt)
  applied_row env db outcome after a =
      let receipt = receipt_of id a.tx in
      let set = set_applied receipt (env.now_iso8601 a.tx.calls) in
      let frame = framed env db outcome after a in
      (
        set (set_proposal_status ProposalStatus.applying a.row),
        ap (find_proposal id) a.stored
            ∙ select-update_same ProposalRow.id set id a.tx.tables.proposals (λ row. refl)
            ∙ ap (λ ps. column set (select ProposalRow.id id ps)) frame.proposals
            ∙ ap (column set) (
                select-update_same ProposalRow.id (set_proposal_status ProposalStatus.applying) id
                  db.proposals (λ row. refl)
                ∙ ap (column (set_proposal_status ProposalStatus.applying)) a.known),
        refl,
        ap (λ o. some o.receipt) (sym a.told),
      )

  abbrev Decided : AppliedProposal → Tables → Type 0
  Decided receipt after =
      ((later : Env)
        → apply_proposal body_sha256 later id after
          ≡ ok (record { receipt = receipt; applied_now = false }, after))
      × ((later : Env) (reason : Option String)
          → reject_proposal later id reason after ≡ err (conflict "proposal" id))

  decided :
      (row : ProposalRow) (receipt : AppliedProposal) (after : Tables)
      → find_proposal id after ≡ some row
      → row.status ≡ ProposalStatus.applied
      → row.result ≡ some receipt
      → Decided receipt after
  unfolding apply_proposal reject_proposal
  decided row receipt after f s r = (λ later. rw (f, s, r) refl, λ later reason. rw (f, s) refl)

  -- A proposal that `apply_proposal` has answered for is decided: applied again, at any time and with any
  -- draws, it gives the same receipt, says that it was not applied now, and changes nothing; and it
  -- cannot be rejected.
  pub apply_proposal_once :
      (env : Env) (db : Tables) (outcome : ApplyOutcome) (after : Tables)
      → apply_proposal body_sha256 env id db ≡ ok (outcome, after)
      → ((later : Env)
          → apply_proposal body_sha256 later id after
            ≡ ok (record { receipt = outcome.receipt; applied_now = false }, after))
        × ((later : Env) (reason : Option String)
            → reject_proposal later id reason after ≡ err (conflict "proposal" id))
  apply_proposal_once env db outcome after h =
      elim (apply_proposal_ok body_sha256 env id db outcome after h) [
        | inl a ↦
            let (row, f, s, r) = applied_row env db outcome after a in
            decided row outcome.receipt after f s r
        | inr a ↦ rw (a.same, a.told) (decided a.row a.receipt db a.known a.applied a.stored)
      ]

  -- An application writes one event for each id of the receipt, in that order, after the events that
  -- were there.
  pub receipt_lists_events :
      (env : Env) (db : Tables) (outcome : ApplyOutcome) (after : Tables)
      → apply_proposal body_sha256 env id db ≡ ok (outcome, after)
      → outcome.applied_now ≡ true
      → (appended : List Event) × (after.events ≡ db.events ++ appended)
        × (outcome.receipt.event_ids ≡ map event_id appended)
  receipt_lists_events env db outcome after h now =
      elim (apply_proposal_ok body_sha256 env id db outcome after h) [
        | inl a ↦
            let frame = framed env db outcome after a in
            (
              frame.appended,
              ap Tables.events a.stored ∙ frame.events,
              ap (λ o. AppliedProposal.event_ids (ApplyOutcome.receipt o)) a.told ∙ frame.ids,
            )
        | inr a ↦ absurd (true-false (sym now ∙ ap ApplyOutcome.applied_now a.told))
      ]
    where
      true-false : true ≡ false → ⊥
      true-false e = cc
