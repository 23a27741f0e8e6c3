-- ===== src/Store/Direct/Attention.antt =====
-- src/store/repo.rs and src/store/attention.rs: `week_attention`, a plan that is read from the tables and
-- an actual that is replayed from the log. Events carry their minutes as a number.
use sin.Prelude.{
  ℕ, ◌+◌, ◌-◌, String, ◌≡◌, refl, Bool, false, not, ◌&&◌, Option, none, some, List, [], ◌∷◌, ◌++◌,
  ◌==◌, if◌then◌else◌, leb, arith, Bool-cases, inl, inr,
}
use sin.Core.Types.{WeekId, ScheduleBlock}
use sin.Store.Json.{Value, num, get, as_str}
use sin.Store.Errors.{not_found, StoreResult, ok, ◌>>◌, fail_if, Event}
use sin.Store.Rows.{is_some, select, update}
use sin.Store.Tables.{TaskRow, Tables, task_key, find_week}
use sin.Store.Tables.Statements.{same_text}
use sin.Store.ApplyOp.Change.{in_week}

pub data ℤ : Type 0 where
  pos : ℕ → ℤ
  negsuc : ℕ → ℤ

-- the difference of two numbers
abbrev pub difference : ℕ → ℕ → ℤ
difference m n = if leb n m then pos (m - n) else negsuc (n - m - 1)

pub record WeekAttention : Type 0 where
  pub week_id : WeekId
  pub planned_min : ℕ
  pub actual_min : ℕ
  pub deviation_min : ℤ

-- the join of a block with its task, by the key of the task
abbrev pub block_in_week : WeekId → List TaskRow → Option String → Bool
block_in_week week tasks none = false
block_in_week week tasks (some id) = in_week week (select task_key id tasks)

unfoldable pub planned_sum : WeekId → List TaskRow → List ScheduleBlock → ℕ
planned_sum week tasks [] = 0
planned_sum week tasks (b ∷ blocks) =
    (if block_in_week week tasks b.task_id then b.planned_minutes else 0)
    + planned_sum week tasks blocks

-- `json_extract(payload, '$.minutes')` in a sum
abbrev pub minutes_of : Option Value → ℕ
minutes_of (some (num n)) = n
minutes_of _ = 0

abbrev pub is_completion : WeekId → Event → Bool
is_completion week e =
    e.entity == "block"
    && e.kind == "transitioned"
    && same_text e.to_state "completed"
    && same_text (as_str (get "week_id" e.payload)) week

unfoldable pub actual_sum : WeekId → List Event → ℕ
actual_sum week [] = 0
actual_sum week (e ∷ events) =
    (if is_completion week e then minutes_of (get "minutes" e.payload) else 0)
    + actual_sum week events

unfoldable pub week_attention : WeekId → Tables → StoreResult WeekAttention
week_attention week_id db = do
  fail_if (not (is_some (find_week week_id db))) (not_found "week" week_id)
  let planned_min = planned_sum week_id db.tasks db.blocks
  let actual_min = actual_sum week_id db.events
  ok (record {
    week_id = week_id;
    planned_min = planned_min;
    actual_min = actual_min;
    deviation_min = difference actual_min planned_min;
  })

pub actual_sum-append :
    (week : WeekId) (events : List Event) (e : Event)
    → actual_sum week (events ++ (e ∷ []))
      ≡ (if is_completion week e then minutes_of (get "minutes" e.payload) else 0)
        + actual_sum week events
unfolding actual_sum
actual_sum-append week [] e = refl
actual_sum-append week (x ∷ events) e = omega (arith, actual_sum-append week events e)

pub planned_sum-update :
    (week : WeekId) (tasks : List TaskRow) (set : ScheduleBlock → ScheduleBlock) (id : String)
    (blocks : List ScheduleBlock)
    → ((b : ScheduleBlock) → (set b).task_id ≡ b.task_id)
    → ((b : ScheduleBlock) → (set b).planned_minutes ≡ b.planned_minutes)
    → planned_sum week tasks (update ScheduleBlock.id id set blocks) ≡ planned_sum week tasks blocks
unfolding planned_sum update
planned_sum-update week tasks set id [] k m = refl
planned_sum-update week tasks set id (b ∷ blocks) k m = elim (Bool-cases (b.id == id)) [
  | inl e ↦ rw (e, planned_sum-update week tasks set id blocks k m, k b, m b) refl
  | inr e ↦ rw (e, planned_sum-update week tasks set id blocks k m) refl
]
