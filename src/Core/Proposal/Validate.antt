-- ===== src/Core/Proposal/Validate.antt =====
-- src/core/proposal.rs: `validate` and `validate_op`, an arm of whose `match` stands here as a
-- function where it is long. SHA-256 (the crates sha2 and hex) is the parameter `body_sha256`.
use sin.Prelude.{
  ℕ, String, Bool, true, false, not, ◌&&◌, ◌||◌, Option, none, some, List, [], ◌∷◌, ◌==◌, eqb, ltb,
  leb, length, is_empty, all_of, if◌then◌else◌,
}
use sin.Prelude.Text.{is_blank, bytes, is_ascii_digit, contains}
use sin.Core.Types.{
  TaskId, WeekId, DirectionId, ReviewId, TaskStatus, ReviewStatus, triage_direction_id,
}
use sin.Core.Transitions.{
  check_task_transition, direction_is_terminal, task_is_terminal, week_is_open,
}
use sin.Core.Proposal.Errors.{
  Sin90Op, create_area, create_task, create_direction, transition_task, create_tasks, reorder_tasks,
  adjust_rhythm, carry_over_task, assign_task_direction, draft_review_body, Sin90Proposal, Result,
  ok, err, ◌>>=◌, ◌>>◌, refuse_if, ok_or, checked, ReviewSnap, unknown_entity, week_not_open,
  rhythm_retired, empty_list, duplicate_ref, blank_field, nested_project, not_in_inbox, task_closed,
  direction_closed, review_not_draft, stale_base, no_change, too_large, bad_hash,
}
use sin.Core.Proposal.Errors
use sin.Core.Proposal.Alloc.{check_alloc}
use sin.Core.Proposal.Working.{
  ValidationCtx, Working, new, task_status, set_task, task_direction, set_task_direction,
  review_body_hash, set_review_hash,
}

abbrev pub max_review_body_bytes : ℕ
max_review_body_bytes = 65536

abbrev pub is_hex_byte : ℕ → Bool
is_hex_byte b = is_ascii_digit b || (leb b'a' b && leb b b'f')

unfoldable pub is_lowercase_hex_sha256 : String → Bool
is_lowercase_hex_sha256 s = eqb (length (bytes s)) 64 && all_of is_hex_byte (bytes s)

unfoldable pub non_blank : String → String → Result (Unit {0})
unfolding is_blank
non_blank field value = refuse_if (is_blank value) (blank_field field)

-- `validate`'s own `task_status`, which fails on an unknown task
unfoldable pub require_task : Working → String → Result TaskStatus
require_task w id = ok_or (task_status w id) (unknown_entity "task" id)

unfoldable pub require_open_week : Working → String → Result (Unit {0})
require_open_week w id = do
  status ← ok_or (w.ctx.week_status id) (unknown_entity "week" id)
  refuse_if (not (week_is_open status)) (week_not_open id status)

dupes_loop : String → List String → List String → Result (Unit {0})
unfolding contains
dupes_loop op seen [] = ok tt
dupes_loop op seen (id ∷ ids) =
    let rest = dupes_loop op (id ∷ seen) ids in
    if contains id seen then err (duplicate_ref op id) else rest

unfoldable pub reject_dupes : String → List String → Result (Unit {0})
unfolding dupes_loop
reject_dupes op ids = dupes_loop op [] ids

-- the arm `CreateTask`
abbrev pub is_some : {A : Type 0} → Option A → Bool
is_some none = false
is_some (some a) = true

unfoldable pub check_parent : Working → Option TaskId → Result (Unit {0})
check_parent w none = ok tt
check_parent w (some parent_id) = do
  parent ← ok_or (w.ctx.task_parent parent_id) (unknown_entity "task" parent_id)
  refuse_if (is_some parent) (nested_project parent_id)

unfoldable pub validate_transition : TaskId → TaskStatus → Working → Result Working
validate_transition task_id to w = do
  from ← require_task w task_id
  checked (check_task_transition from to)
  ok (set_task w task_id to)

unfoldable pub validate_carry_over : TaskId → WeekId → Working → Result Working
validate_carry_over task_id to_week w = do
  from ← require_task w task_id
  checked (check_task_transition from TaskStatus.carried_over)
  require_open_week w to_week
  ok (set_task w task_id TaskStatus.carried_over)

-- A3 of the arm `AssignTaskDirection`
unfoldable pub reclassifiable_from_triage :
    String → Working → TaskId → DirectionId → DirectionId → Bool
reclassifiable_from_triage capability_source w task_id existing direction_id =
    existing == triage_direction_id
    && not (direction_id == triage_direction_id)
    && (capability_source == "direct" || w.ctx.task_triage_via_classify task_id)

unfoldable pub check_inbox :
    String → Working → TaskId → DirectionId → Option DirectionId → Result (Unit {0})
check_inbox capability_source w task_id direction_id none = ok tt
check_inbox capability_source w task_id direction_id (some existing) =
    refuse_if (not (reclassifiable_from_triage capability_source w task_id existing direction_id))
      (not_in_inbox task_id existing)

unfoldable pub validate_assign : String → TaskId → DirectionId → Working → Result Working
validate_assign capability_source task_id direction_id w = do
  current_direction ← ok_or (task_direction w task_id) (unknown_entity "task" task_id)
  status ← require_task w task_id
  refuse_if (task_is_terminal status) (task_closed task_id status)
  check_inbox capability_source w task_id direction_id current_direction
  dstatus ← ok_or (w.ctx.direction_status direction_id) (unknown_entity "direction" direction_id)
  refuse_if (direction_is_terminal dstatus) (direction_closed direction_id dstatus)
  ok (set_task_direction w task_id (some direction_id))

abbrev pub is_draft : ReviewStatus → Bool
is_draft ReviewStatus.draft = true
is_draft ReviewStatus.finalized = false

-- `Option::unwrap_or`
abbrev pub unwrap_or {ℓ} : {A : Type ℓ} → Option A → A → A
unwrap_or none d = d
unwrap_or (some a) d = a

module _ (body_sha256 : String → String) where
  -- the arm from D5 on, with the snapshot at hand
  unfoldable pub validate_checked_draft :
      ReviewId → String → String → Working → ReviewSnap → Result Working
  validate_checked_draft review_id base body w snap = do
    refuse_if (not (is_draft snap.status)) (review_not_draft review_id)
    let current_hash = unwrap_or (review_body_hash w review_id) snap.body_sha256
    refuse_if (not (current_hash == base)) (stale_base "review" review_id)
    let new_hash = body_sha256 body
    refuse_if (new_hash == current_hash) (no_change "draft_review_body")
    ok (set_review_hash w review_id new_hash)

  unfoldable pub validate_draft : ReviewId → String → String → Working → Result Working
  unfolding validate_checked_draft
  validate_draft review_id base body w = do
    non_blank "body" body
    refuse_if (ltb max_review_body_bytes (length (bytes body)))
        (too_large "body" max_review_body_bytes)
    refuse_if (not (is_lowercase_hex_sha256 base)) bad_hash
    snap ← ok_or (w.ctx.review_snap review_id) (unknown_entity "review" review_id)
    validate_checked_draft review_id base body w snap

  module _ (capability_source : String) where
    unfoldable pub validate_op : Sin90Op → Working → Result Working
    validate_op (create_area title) w = do non_blank "title" title; ok w
    validate_op (create_task title d parent_task_id k e m) w = do
      non_blank "title" title
      check_parent w parent_task_id
      ok w
    validate_op (create_direction title target_window) w = do
      non_blank "title" title
      non_blank "target_window" target_window
      ok w
    validate_op (transition_task task_id to) w = validate_transition task_id to w
    validate_op (create_tasks week_id tasks) w = do
      refuse_if (is_empty tasks) (empty_list "create_tasks" week_id)
      require_open_week w week_id
      ok w
    validate_op (reorder_tasks week_id order) w = do
      require_open_week w week_id
      refuse_if (is_empty order) (empty_list "reorder_tasks" week_id)
      reject_dupes "reorder_tasks" order
      ok w
    validate_op (adjust_rhythm rhythm_id new_alloc) w = do
      retired ← ok_or (w.ctx.rhythm_is_retired rhythm_id) (unknown_entity "rhythm" rhythm_id)
      refuse_if retired (rhythm_retired rhythm_id)
      check_alloc new_alloc
      ok w
    validate_op (carry_over_task task_id to_week) w = validate_carry_over task_id to_week w
    validate_op (assign_task_direction task_id direction_id) w =
        validate_assign capability_source task_id direction_id w
    validate_op (draft_review_body review_id base body) w = validate_draft review_id base body w

    -- the loop `for op in &p.ops`
    unfoldable pub validate_ops : List Sin90Op → Working → Result Working
    validate_ops [] w = ok w
    validate_ops (op ∷ ops) w = validate_op op w >>= validate_ops ops

    unfoldable pub validate : Sin90Proposal → ValidationCtx → Result (Unit {0})
    validate p ctx = do
      refuse_if (is_empty p.ops) Errors.empty
      w ← validate_ops p.ops (new ctx)
      ok tt
