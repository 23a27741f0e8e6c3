-- ===== src/Store/Direct/Credits.antt =====
-- src/store/repo.rs: what the transitions of a block do to the attention of the weeks.
use sin.Prelude.{
  ℕ, ◌+◌, String, ◌≡◌, refl, ap, ◌∙◌, Bool, true, false, ◌&&◌, Option, none, some, List,
  if◌then◌else◌, Bool-cases, Option-cases, inl, inr, subst,
}
use sin.Core.Types.{WeekId, Week, ScheduleBlock, ScheduleBlockStatus}
use sin.Core.Transitions.{check_schedule_block_transition}
use sin.Store.Json.{as_str, opt_str}
use sin.Store.Errors.{
  StoreResult, StoreError, ok, Ends, Ends-ok, Ends-found, Ends-bind, returns, transition_checked,
}
use sin.Store.Rows.{is_some, select}
use sin.Store.Tables.{TaskRow, Tables, Env, task_key, find_week}
use sin.Store.Tables.Statements.{same_text}
use sin.Store.ApplyOp.Keeps.{Any}
use sin.Store.ApplyOp.Kept.{observe}
use sin.Store.Direct.{transition_block, week_of, follow, set_block_status, block_status_wire}
use sin.Store.Direct.Logged.{append_event-Ends}
use sin.Store.Direct.Attention.{
  WeekAttention, difference, block_in_week, planned_sum, actual_sum, week_attention,
  actual_sum-append, planned_sum-update,
}

abbrev pub completes : ScheduleBlockStatus → Bool
completes ScheduleBlockStatus.planned = false
completes ScheduleBlockStatus.started = false
completes ScheduleBlockStatus.completed = true
completes ScheduleBlockStatus.skipped = false

-- the week that the event of a block carries is the week that a join finds
snapshot_week :
    (week : WeekId) (tasks : List TaskRow) (t : Option String)
    → same_text (as_str (some (week_of (follow task_key t tasks)))) week
      ≡ block_in_week week tasks t
snapshot_week week tasks none = refl
snapshot_week week tasks (some id) = elim (Option-cases (select task_key id tasks)) [
  | inl e ↦ rw e refl
  | inr (row, e) ↦ rw e (known row.task.week_id)
]
  where
    known : (w : Option String) → same_text (as_str (some (opt_str w))) week ≡ same_text w week
    known none = refl
    known (some w) = refl

-- what a block gives to the minutes of a week
abbrev pub credit : WeekId → List TaskRow → ScheduleBlockStatus → ScheduleBlock → ℕ
credit week tasks to block =
    if completes to && block_in_week week tasks block.task_id then block.planned_minutes else 0

pub record IsCredited (week : WeekId) (to : ScheduleBlockStatus) (db after : Tables)
    (block : ScheduleBlock) : Type 0 where
  pub actual :
      actual_sum week after.events ≡ credit week db.tasks to block + actual_sum week db.events
  pub planned : planned_sum week after.tasks after.blocks ≡ planned_sum week db.tasks db.blocks
  pub weeks : after.weeks ≡ db.weeks

wire_completed :
    (to : ScheduleBlockStatus) → same_text (some (block_status_wire to)) "completed" ≡ completes to
wire_completed ScheduleBlockStatus.planned = refl
wire_completed ScheduleBlockStatus.started = refl
wire_completed ScheduleBlockStatus.completed = refl
wire_completed ScheduleBlockStatus.skipped = refl

module _ (env : Env) where
  transition_block-IsCredited :
      (week : WeekId) (id : String) (to : ScheduleBlockStatus) (db : Tables)
      → Ends (λ got. IsCredited week to db got.1 got.0) Any (transition_block env id to db)
  unfolding transition_block
  transition_block-IsCredited week id to db =
      Ends-found (select ScheduleBlock.id id db.blocks) _ _ (λ e. tt)
        λ row e.
          Ends-bind (observe (transition_checked (check_schedule_block_transition row.status to)))
            λ u q. Ends-bind (append_event-Ends env _ 1 _) λ tx s. returns _ (
              rw s (record {
                actual =
                    actual_sum-append week db.events _
                    ∙ rw (wire_completed to, snapshot_week week db.tasks row.task_id) refl;
                planned =
                    planned_sum-update week db.tasks (set_block_status to (env.now_iso8601 0)) id
                      db.blocks (λ b. refl) (λ b. refl);
                weeks = refl;
              }))

-- A transition of a block that succeeds leaves the planned minutes of each week as they are. It adds the
-- planned minutes of the block to the actual minutes of the week of its task where it completes the
-- block, and adds nothing to any other week, nor where it does not complete the block.
pub week_attention-transition_block :
    (env : Env) (week : WeekId) (id : String) (to : ScheduleBlockStatus) (db after : Tables)
    (block : ScheduleBlock) (before : WeekAttention)
    → transition_block env id to db ≡ ok (block, after)
    → week_attention week db ≡ ok before
    → week_attention week after
      ≡ ok (record {
        week_id = week;
        planned_min = before.planned_min;
        actual_min = credit week db.tasks to block + before.actual_min;
        deviation_min =
            difference (credit week db.tasks to block + before.actual_min) before.planned_min;
      })
unfolding week_attention
week_attention-transition_block env week id to db after block before h a =
    elim (Bool-cases (is_some (find_week week db))) [
      | inl e ↦
          let c : IsCredited week to db after block = Ends-ok (
            subst (Ends (λ got. IsCredited week to db got.1 got.0) Any) h
              (transition_block-IsCredited env week id to db)) in
          let read = ok-injective (rw e at a) in
          rw (ap (λ ws. is_some (select Week.id week ws)) c.weeks, e, c.actual, c.planned)
            (ap
              (λ r. ok (record {
                week_id = week;
                planned_min = r.planned_min;
                actual_min = credit week db.tasks to block + r.actual_min;
                deviation_min =
                    difference (credit week db.tasks to block + r.actual_min) r.planned_min;
              }))
              read)
      | inr e ↦ absurd (refused (rw e at a))
    ]
  where
    ok-injective : {x y : WeekAttention} → StoreResult.ok x ≡ ok y → x ≡ y
    ok-injective q = cc

    refused : {e : StoreError} {x : WeekAttention} → StoreResult.err e ≡ ok x → ⊥
    refused q = cc
