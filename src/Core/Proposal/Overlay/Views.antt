-- ===== src/Core/Proposal/Overlay/Views.antt =====
-- src/core/proposal.rs: two working views that answer every question of the validator alike.
use sin.Prelude.{String, ◌≡◌, refl, sym, ◌∙◌, ap, Option, none, some, ◌==◌, if◌then◌else◌}
use sin.Core.Types.{DirectionId, TaskStatus, ReviewStatus}
use sin.Core.Proposal.Errors.{Result, ok, err, ReviewSnap, ◌>>=◌}
use sin.Core.Proposal.Working.{
  Working, task_status, set_task, task_direction, set_task_direction, review_body_hash,
  set_review_hash, task_status-set_task, task_direction-set_task_direction,
  review_body_hash-set_review_hash,
}

abbrev pub snap_status : Option ReviewSnap → Option ReviewStatus
snap_status none = none
snap_status (some s) = some s.status

-- two views that answer every question of the validator alike
pub record Same (w v : Working) : Type 0 where
  pub task : (id : String) → task_status w id ≡ task_status v id
  pub direction : (id : String) → task_direction w id ≡ task_direction v id
  pub hash :
      (id : String) (s : ReviewSnap)
      → w.ctx.review_snap id ≡ some s
      → review_body_hash w id ≡ review_body_hash v id
  pub snap : (id : String) → snap_status (w.ctx.review_snap id) ≡ snap_status (v.ctx.review_snap id)
  pub week : (id : String) → w.ctx.week_status id ≡ v.ctx.week_status id
  pub retired : (id : String) → w.ctx.rhythm_is_retired id ≡ v.ctx.rhythm_is_retired id
  pub parent : (id : String) → w.ctx.task_parent id ≡ v.ctx.task_parent id
  pub target : (id : String) → w.ctx.direction_status id ≡ v.ctx.direction_status id
  pub triage : (id : String) → w.ctx.task_triage_via_classify id ≡ v.ctx.task_triage_via_classify id

unfoldable pub SameResult : Result Working → Result Working → Type 0
SameResult (ok w) (ok v) = Same w v
SameResult (err e) (err f) = e ≡ f
SameResult _ _ = ⊥

pub bind-Same :
    {A : Type 0} (m : Result A) (f g : A → Result Working)
    → ((a : A) → m ≡ ok a → SameResult (f a) (g a))
    → SameResult (m >>= f) (m >>= g)
unfolding SameResult
bind-Same (ok a) f g h = h a refl
bind-Same (err e) f g h = refl

-- the same question to both views, then the same continuation
pub ask-Same :
    {A : Type 0} (m n : Result A) (f g : A → Result Working)
    → m ≡ n
    → ((a : A) → n ≡ ok a → SameResult (f a) (g a))
    → SameResult (m >>= f) (n >>= g)
ask-Same m n f g e h = rw e (bind-Same n f g h)

module _ {w v : Working} (id : String) (h : Same w v) where
  pub set_task-Same : (s : TaskStatus) → Same (set_task w id s) (set_task v id s)
  unfolding set_task task_direction review_body_hash
  set_task-Same s = record {
    task = λ j.
        task_status-set_task w id j s
        ∙ ap (λ t. if id == j then some s else t) (h.task j)
        ∙ sym (task_status-set_task v id j s);
    direction = h.direction;
    hash = h.hash;
    snap = h.snap;
    week = h.week;
    retired = h.retired;
    parent = h.parent;
    target = h.target;
    triage = h.triage;
  }

  pub set_task_direction-Same :
      (d : Option DirectionId) → Same (set_task_direction w id d) (set_task_direction v id d)
  unfolding set_task_direction task_status review_body_hash
  set_task_direction-Same d = record {
    task = h.task;
    direction = λ j.
        task_direction-set_task_direction w id j d
        ∙ ap (λ t. if id == j then some d else t) (h.direction j)
        ∙ sym (task_direction-set_task_direction v id j d);
    hash = h.hash;
    snap = h.snap;
    week = h.week;
    retired = h.retired;
    parent = h.parent;
    target = h.target;
    triage = h.triage;
  }

  pub set_review_hash-Same : (x : String) → Same (set_review_hash w id x) (set_review_hash v id x)
  unfolding set_review_hash task_status task_direction
  set_review_hash-Same x = record {
    task = h.task;
    direction = h.direction;
    hash = λ j s e.
        review_body_hash-set_review_hash w id j x
        ∙ ap (λ t. if id == j then some x else t) (h.hash j s e)
        ∙ sym (review_body_hash-set_review_hash v id j x);
    snap = h.snap;
    week = h.week;
    retired = h.retired;
    parent = h.parent;
    target = h.target;
    triage = h.triage;
  }
