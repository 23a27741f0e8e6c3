-- ===== src/Core/Proposal/Errors.antt =====
-- src/core/proposal.rs: the ops, the error type and the result type of the validator. A static
-- text of the source is a text.
use sin.Prelude.{ℕ, String, Option, none, some, List, Bool, true, false, ◌≡◌, refl}
use sin.Core.Types.{
  DirectionId, TaskId, WeekId, RhythmId, ReviewId, TaskStatus, WeekStatus, DirectionStatus,
  ReviewStatus, ProposalStatus, TaskKind, Energy, Alloc,
}
use sin.Core.Transitions.{TransitionError, Checked}

pub record NewTask : Type 0 where
  pub title : String
  pub direction_id : Option DirectionId

pub data Sin90Op : Type 0 where
  create_area : String → Sin90Op
  create_task :
      (title : String) (direction_id : Option DirectionId) (parent_task_id : Option TaskId)
      (kind : Option TaskKind) (energy : Option Energy) (est_minutes : Option ℕ)
      → Sin90Op
  create_direction : (title target_window : String) → Sin90Op
  transition_task : TaskId → TaskStatus → Sin90Op
  create_tasks : WeekId → List NewTask → Sin90Op
  reorder_tasks : WeekId → List TaskId → Sin90Op
  adjust_rhythm : RhythmId → List Alloc → Sin90Op
  carry_over_task : (task_id : TaskId) (to_week : WeekId) → Sin90Op
  assign_task_direction : TaskId → DirectionId → Sin90Op
  draft_review_body : ReviewId → (base_body_sha256 body : String) → Sin90Op

pub record ReviewSnap : Type 0 where
  pub status : ReviewStatus
  pub body_sha256 : String

pub data ProposalSource : Type 0 where
  local_brain executive rule : ProposalSource

pub record Sin90Proposal : Type 0 where
  pub id : String
  pub status : ProposalStatus
  pub source : ProposalSource
  pub ops : List Sin90Op
  pub rationale : Option String

pub data ProposalError : Type 0 where
  empty : ProposalError
  unknown_entity : (entity id : String) → ProposalError
  illegal_transition : TransitionError → ProposalError
  week_not_open : WeekId → WeekStatus → ProposalError
  rhythm_retired : RhythmId → ProposalError
  empty_list : (op : String) → WeekId → ProposalError
  duplicate_ref : (op id : String) → ProposalError
  invalid_alloc : (sum_pct : ℕ) → ProposalError
  empty_allocations : ProposalError
  pct_out_of_range : DirectionId → (pct : ℕ) → ProposalError
  blank_field : (field : String) → ProposalError
  nested_project : (parent_id : TaskId) → ProposalError
  not_in_inbox : TaskId → DirectionId → ProposalError
  task_closed : TaskId → TaskStatus → ProposalError
  direction_closed : DirectionId → DirectionStatus → ProposalError
  review_not_draft : ReviewId → ProposalError
  stale_base : (entity id : String) → ProposalError
  no_change : (op : String) → ProposalError
  too_large : (field : String) (max_bytes : ℕ) → ProposalError
  bad_hash : ProposalError

pub data Result {ℓ} (A : Type ℓ) : Type ℓ where
  ok : A → Result A
  err : ProposalError → Result A

-- the operator `?`: an error ends the function
infixl 5 ◌>>=◌
abbrev pub ◌>>=◌ {ℓ κ} : {X : Type ℓ} {Y : Type κ} → Result X → (X → Result Y) → Result Y
err failure >>= next = err failure
ok value >>= next = next value

-- and for a `Result<()>`
infixl 5 ◌>>◌
abbrev pub ◌>>◌ {κ} : {Y : Type κ} → Result (Unit {0}) → Result Y → Result Y
first >> second = first >>= λ u. second

-- `return Err(e)` under a condition
abbrev pub refuse_if : Bool → ProposalError → Result (Unit {0})
refuse_if true e = err e
refuse_if false e = ok tt

-- `Option::ok_or_else`
abbrev pub ok_or {ℓ} : {A : Type ℓ} → Option A → ProposalError → Result A
ok_or none e = err e
ok_or (some a) e = ok a

-- `TransitionError` into `ProposalError`, by `#[from]`
abbrev pub checked : Checked → Result (Unit {0})
checked Checked.ok = ok tt
checked (Checked.err e) = err (ProposalError.illegal_transition e)

pub >>=-eq-ok {ℓ κ} :
    {X : Type ℓ} {Y : Type κ} (first : Result X) (next : X → Result Y) {y : Y}
    → (first >>= next) ≡ ok y
    → (x : X) × (first ≡ ok x) × (next x ≡ ok y)
>>=-eq-ok (err failure) next h = cc
>>=-eq-ok (ok value) next h = (value, refl, h)
