-- ===== src/Core/Proposal/Working.antt =====
-- src/core/proposal.rs: the trait `ValidationCtx` as a record of its methods, and the overlay
-- `Working` of a batch. `HashMap::insert` puts an entry in front, where `get` finds it first.
use sin.Prelude.{String, ◌≡◌, Bool, Option, none, some, List, [], ◌∷◌, arith, ◌==◌, if◌then◌else◌}
use sin.Prelude.Text.{lookup}
use sin.Core.Types.{DirectionId, TaskId, TaskStatus, WeekStatus, DirectionStatus}
use sin.Core.Proposal.Errors.{ReviewSnap}

pub record ValidationCtx : Type 0 where
  pub task_status : String → Option TaskStatus
  pub week_status : String → Option WeekStatus
  pub rhythm_is_retired : String → Option Bool
  pub area_exists : String → Bool
  pub task_parent : String → Option (Option TaskId)
  pub direction_status : String → Option DirectionStatus
  pub task_triage_via_classify : String → Bool
  pub task_direction : String → Option (Option DirectionId)
  pub review_snap : String → Option ReviewSnap

pub record Working : Type 0 where
  pub ctx : ValidationCtx
  pub task : List (String × TaskStatus)
  pub task_directions : List (String × Option DirectionId)
  pub review_hash : List (String × String)

-- `Option::or_else`
abbrev pub or_else {ℓ} : {A : Type ℓ} → Option A → Option A → Option A
or_else none b = b
or_else (some a) b = some a

abbrev pub snap_hash : Option ReviewSnap → Option String
snap_hash none = none
snap_hash (some s) = some s.body_sha256

unfoldable pub new : ValidationCtx → Working
new ctx = record { ctx = ctx; task = []; task_directions = []; review_hash = [] }

unfoldable pub task_status : Working → String → Option TaskStatus
unfolding lookup
task_status w id = or_else (lookup id w.task) (w.ctx.task_status id)

unfoldable pub set_task : Working → String → TaskStatus → Working
set_task w id s = record w { task = (id, s) ∷ w.task }

unfoldable pub task_direction : Working → String → Option (Option DirectionId)
unfolding lookup
task_direction w id = or_else (lookup id w.task_directions) (w.ctx.task_direction id)

unfoldable pub set_task_direction : Working → String → Option DirectionId → Working
set_task_direction w id d = record w { task_directions = (id, d) ∷ w.task_directions }

unfoldable pub review_body_hash : Working → String → Option String
unfolding lookup
review_body_hash w id = or_else (lookup id w.review_hash) (snap_hash (w.ctx.review_snap id))

unfoldable pub set_review_hash : Working → String → String → Working
set_review_hash w id h = record w { review_hash = (id, h) ∷ w.review_hash }

-- what the reads answer after each write
module _ (w : Working) (id j : String) where
  pub task_status-set_task :
      (s : TaskStatus)
      → task_status (set_task w id s) j ≡ (if id == j then some s else task_status w j)
  unfolding task_status set_task
  task_status-set_task s = ground arith

  pub task_direction-set_task_direction :
      (d : Option DirectionId)
      → task_direction (set_task_direction w id d) j
        ≡ (if id == j then some d else task_direction w j)
  unfolding task_direction set_task_direction
  task_direction-set_task_direction d = ground arith

  pub review_body_hash-set_review_hash :
      (h : String)
      → review_body_hash (set_review_hash w id h) j
        ≡ (if id == j then some h else review_body_hash w j)
  unfolding review_body_hash set_review_hash
  review_body_hash-set_review_hash h = ground arith
