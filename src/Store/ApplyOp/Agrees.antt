-- ===== src/Store/ApplyOp/Agrees.antt =====
-- src/core/proposal.rs and src/store/repo.rs: the validator's view of a batch beside the tables.
use sin.Prelude.{
  String, ◌≡◌, refl, sym, ◌∙◌, ap, Bool, Option, none, some, List, [], ◌∷◌, ◌++◌, arith,
  Option-cases, inl, inr,
}
use sin.Core.Types.{TaskStatus, WeekStatus, DirectionStatus, DirectionId}
use sin.Core.Proposal.Errors.{ReviewSnap}
use sin.Core.Proposal.Working.{
  ValidationCtx, Working, new, task_status, task_direction, review_body_hash,
}
use sin.Store.Rows.{column, select, select-insert}

-- What the view knows of a batch up to an op is what the tables say.
pub record Agrees (w : Working) (c : ValidationCtx) : Type 0 where
  pub task : (id : String) (s : TaskStatus) → task_status w id ≡ some s → c.task_status id ≡ some s
  pub direction :
      (id : String) (d : Option DirectionId)
      → task_direction w id ≡ some d
      → c.task_direction id ≡ some d
  pub review :
      (id : String) (s : ReviewSnap)
      → w.ctx.review_snap id ≡ some s
      → (r : ReviewSnap) × (c.review_snap id ≡ some r)
        × (r.status ≡ s.status)
        × (review_body_hash w id ≡ some r.body_sha256)
  pub week :
      (id : String) (s : WeekStatus) → w.ctx.week_status id ≡ some s → c.week_status id ≡ some s
  pub retired :
      (id : String) (b : Bool)
      → w.ctx.rhythm_is_retired id ≡ some b
      → c.rhythm_is_retired id ≡ some b
  pub target :
      (id : String) (s : DirectionStatus)
      → w.ctx.direction_status id ≡ some s
      → c.direction_status id ≡ some s

-- Tables that answer all that others answered, alike.
pub record Extends (c d : ValidationCtx) : Type 0 where
  pub task : (id : String) (s : TaskStatus) → c.task_status id ≡ some s → d.task_status id ≡ some s
  pub direction :
      (id : String) (s : Option DirectionId)
      → c.task_direction id ≡ some s
      → d.task_direction id ≡ some s
  pub review :
      (id : String) (s : ReviewSnap) → c.review_snap id ≡ some s → d.review_snap id ≡ some s
  pub week : (id : String) (s : WeekStatus) → c.week_status id ≡ some s → d.week_status id ≡ some s
  pub retired :
      (id : String) (s : Bool) → c.rhythm_is_retired id ≡ some s → d.rhythm_is_retired id ≡ some s
  pub target :
      (id : String) (s : DirectionStatus)
      → c.direction_status id ≡ some s
      → d.direction_status id ≡ some s

pub Agrees-Extends : {w : Working} {c d : ValidationCtx} → Agrees w c → Extends c d → Agrees w d
Agrees-Extends a x = record {
  task = λ id s e. x.task id s (a.task id s e);
  direction = λ id s e. x.direction id s (a.direction id s e);
  review = λ id s e. let (r, f, p, q) = a.review id s e in (r, x.review id r f, p, q);
  week = λ id s e. x.week id s (a.week id s e);
  retired = λ id s e. x.retired id s (a.retired id s e);
  target = λ id s e. x.target id s (a.target id s e);
}

pub Extends-trans : {b c d : ValidationCtx} → Extends b c → Extends c d → Extends b d
Extends-trans x y = record {
  task = λ id s e. y.task id s (x.task id s e);
  direction = λ id s e. y.direction id s (x.direction id s e);
  review = λ id s e. y.review id s (x.review id s e);
  week = λ id s e. y.week id s (x.week id s e);
  retired = λ id s e. y.retired id s (x.retired id s e);
  target = λ id s e. y.target id s (x.target id s e);
}

-- a fresh view over the tables agrees with them
pub new-Agrees : (c : ValidationCtx) → Agrees (new c) c
unfolding new task_status task_direction review_body_hash
new-Agrees c = record {
  task = λ id s e. e;
  direction = λ id s e. e;
  review = λ id s e. (s, e, refl, ground (arith, e));
  week = λ id s e. e;
  retired = λ id s e. e;
  target = λ id s e. e;
}

pub column-insert {κ} :
    {A : Type 0} {B : Type κ} (key : A → String) (f : A → B) (id : String) (row : A) (rows : List A)
    (b : B)
    → column f (select key id rows) ≡ some b
    → column f (select key id (rows ++ (row ∷ []))) ≡ some b
column-insert key f id row rows b e = elim (Option-cases (select key id rows)) [
  | inl p ↦ absurd (none-some (ap (column f) (sym p) ∙ e))
  | inr (found, p) ↦
      ap (column f) (select-insert key id row found rows p) ∙ ap (column f) (sym p) ∙ e
]
  where
    none-some : none ≡ some b → ⊥
    none-some h = cc
