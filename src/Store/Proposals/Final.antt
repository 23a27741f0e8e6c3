-- ===== src/Store/Proposals/Final.antt =====
-- src/store/repo.rs: what stays as it is through submissions, applications and rejections.
use sin.Prelude.{
  String, ◌≡◌, refl, sym, ◌∙◌, ap, subst, true, false, some, List, ◌==◌, All, arith, eq_iff,
  Bool-cases, inl, inr,
}
use sin.Core.Types.{ProposalStatus}
use sin.Core.Transitions.{proposal_is_terminal}
use sin.Core.Proposal.Errors.{Sin90Op}
use sin.Store.Errors.{Ends, Ends-ok}
use sin.Store.Rows.{select, select-update, select-insert}
use sin.Store.Tables.{Tables, ProposalRow, find_proposal}
use sin.Store.ApplyOp.Keeps.{Any}
use sin.Store.ApplyOp.Kept.{apply_ops_keeps}
use sin.Store.Tables.Statements.{begin}
use sin.Store.Proposals.{set_rejected, set_proposal_status}
use sin.Store.Proposals.Stamps.{
  IsStamped, AllStamped, stamps_kept, IsClosed, AllClosed, closed_kept,
}
use sin.Store.Proposals.Applied.{claimed, source_of, apply_proposal_ok}
use sin.Store.Proposals.Once.{framed}
use sin.Store.Proposals.Steps.{
  Step, submitted, applied, rejected, Steps, none_yet, then_, submit_ok, reject_ok,
}

-- a decided row is not a pending one
decided_pending :
    (s : ProposalStatus) → proposal_is_terminal s ≡ true → s ≡ ProposalStatus.pending → ⊥
unfolding proposal_is_terminal
decided_pending s t e = ground (arith, t, e)

-- an update of a pending proposal does not meet a decided one
other_proposal :
    (id : String) (row : ProposalRow) (j : String) (p : ProposalRow) (db : Tables)
    → find_proposal id db ≡ some row
    → proposal_is_terminal row.status ≡ true
    → find_proposal j db ≡ some p
    → p.status ≡ ProposalStatus.pending
    → (j == id) ≡ false
other_proposal id row j p db f t g s = elim (Bool-cases (j == id)) [
  | inl e ↦
      let same : j ≡ id = (eq_iff j id).0 e in
      let rows : p ≡ row = some-injective (sym g ∙ ap (λ x. find_proposal x db) same ∙ f) in
      absurd (decided_pending row.status t (ap ProposalRow.status (sym rows) ∙ s))
  | inr e ↦ e
]
  where
    some-injective : {a b : ProposalRow} → some a ≡ some b → a ≡ b
    some-injective h = cc

module _ (body_sha256 : String → String) (ops_json : List Sin90Op → String) where
  step_keeps_decided :
      (id : String) (row : ProposalRow) (db after : Tables)
      → Step body_sha256 ops_json db after
      → find_proposal id db ≡ some row
      → proposal_is_terminal row.status ≡ true
      → find_proposal id after ≡ some row
  step_keeps_decided id row db after (submitted env p h) f t =
      elim (submit_ok body_sha256 ops_json env p db after h) [
        | inl e ↦ ap (find_proposal id) e ∙ f
        | inr e ↦
            ap (λ ps. select ProposalRow.id id ps) e.0
            ∙ select-insert ProposalRow.id id _ row db.proposals f
      ]
  step_keeps_decided id row db after (applied env j outcome h) f t =
      elim (apply_proposal_ok body_sha256 env j db outcome after h) [
        | inl a ↦
            let apart = other_proposal id row j a.row db f t a.known a.pending in
            let frame = framed body_sha256 j env db outcome after a in
            ap (find_proposal id) a.stored
            ∙ select-update ProposalRow.id _ j id a.tx.tables.proposals (λ r. refl)
            ∙ rw (apart, frame.proposals) refl
            ∙ select-update ProposalRow.id (set_proposal_status ProposalStatus.applying) j id
                db.proposals (λ r. refl)
            ∙ rw apart f
        | inr a ↦ ap (find_proposal id) a.same ∙ f
      ]
  step_keeps_decided id row db after (rejected env j reason outcome h) f t =
      let (p, g, s, e, same) = reject_ok env j reason db outcome after h in
      ap (λ ps. select ProposalRow.id id ps) e
      ∙ select-update ProposalRow.id (set_rejected (env.now_iso8601 0)) j id db.proposals
          (λ r. refl)
      ∙ rw (other_proposal id row j p db f t g s) f

  -- A proposal that is applied or rejected stays as it is, in every column, whatever proposals are
  -- submitted, applied and rejected after that.
  pub decided_is_final :
      (id : String) (row : ProposalRow) (db after : Tables)
      → Steps body_sha256 ops_json db after
      → find_proposal id db ≡ some row
      → proposal_is_terminal row.status ≡ true
      → find_proposal id after ≡ some row
  decided_is_final id row db after none_yet f t = f
  decided_is_final id row db after (then_ {mid = mid} steps step) f t =
      step_keeps_decided id row mid after step (decided_is_final id row db mid steps f t) t

  -- the tasks are sound: provenance and carry-overs
  pub record IsTaskSound (db : Tables) : Type 0 where
    pub stamped : AllStamped (begin 0 db)
    pub closed : AllClosed (begin 0 db)

  tasks_sound : (db after : Tables) → after.tasks ≡ db.tasks → IsTaskSound db → IsTaskSound after
  tasks_sound db after e h = record {
    stamped = subst (All IsStamped) (sym e) h.stamped;
    closed = subst (λ ts. All (λ row. IsClosed ts row.task.carried_from) ts) (sym e) h.closed;
  }

  step_keeps_tasks :
      (db after : Tables) → Step body_sha256 ops_json db after → IsTaskSound db → IsTaskSound after
  step_keeps_tasks db after (submitted env p a) h =
      elim (submit_ok body_sha256 ops_json env p db after a) [
        | inl e ↦ tasks_sound db after (ap Tables.tasks e) h
        | inr e ↦ tasks_sound db after e.1 h
      ]
  step_keeps_tasks db after (rejected env j reason outcome a) h =
      tasks_sound db after (reject_ok env j reason db outcome after a).4 h
  step_keeps_tasks db after (applied env j outcome a) h =
      elim (apply_proposal_ok body_sha256 env j db outcome after a) [
        | inl x ↦ tasks_sound x.tx.tables after (ap Tables.tasks x.stored) (record {
          stamped = Ends-ok (
              subst (Ends AllStamped Any) x.ran (
                apply_ops_keeps (stamps_kept env (source_of j db)) x.row.ops
                  (begin 0 (claimed j db)) h.stamped));
          closed = Ends-ok (
              subst (Ends AllClosed Any) x.ran (
                apply_ops_keeps (closed_kept env (source_of j db)) x.row.ops
                  (begin 0 (claimed j db)) h.closed));
        })
        | inr x ↦ tasks_sound db after (ap Tables.tasks x.same) h
      ]

  -- If each task has the columns of its provenance exactly when it is in the triage direction, and each
  -- task that another was carried over from is closed as carried over, then that is so after any
  -- submissions, applications and rejections of proposals.
  pub proposals_keep_tasks :
      (db after : Tables) → Steps body_sha256 ops_json db after → IsTaskSound db → IsTaskSound after
  proposals_keep_tasks db after none_yet h = h
  proposals_keep_tasks db after (then_ {mid = mid} steps step) h =
      step_keeps_tasks mid after step (proposals_keep_tasks db mid steps h)
