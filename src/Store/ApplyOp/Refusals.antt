-- ===== src/Store/ApplyOp/Refusals.antt =====
-- src/store/repo.rs: the errors of `apply_op` on an op that was accepted, and what its reads answer.
use mathlib.Core.List.{Memᴰ}
use sin.Prelude.{
  String, ◌≡◌, ◌⊎◌, ◌↔◌, eq_iff, refl, ◌∙◌, ap, Bool, true, false, not, Option, none, some, map,
  arith, Bool-cases, Option-cases, inl, inr, subst,
}
use sin.Core.Types.{
  Week, TaskId, WeekId, DirectionId, RhythmId, TaskStatus, WeekStatus, Alloc, RhythmStatus, Rhythm,
  Review, ReviewStatus, triage_direction_id,
}
use sin.Core.Transitions.{
  week_is_open, task_transition_allowed, check_task_transition, rhythm_transition_allowed,
  check_rhythm_transition,
}
use sin.Core.Proposal.Errors.{
  Sin90Op, create_area, create_task, create_direction, create_tasks, draft_review_body,
  transition_task, reorder_tasks, adjust_rhythm, carry_over_task, assign_task_direction, ReviewSnap,
}
use sin.Store.Errors.{
  StoreError, ok, not_found, week_not_open, same_week_carry, Ends, returns, fails,
  transition_checked,
}
use sin.Store.Rows.{column}
use sin.Store.Proposals.Snapshot.{
  task_status_column, task_direction_column, review_column, is_retired,
}
use sin.Store.Tables.{TaskRow, Tables, find_task, find_direction, find_week, find_rhythm}
use sin.Store.Tables.Statements.{read_task_status, read_rhythm_status, require_task_week_open}
use sin.Store.ApplyOp.Change.{in_inbox, in_week, drafted}
use sin.Store.ApplyOp.Effects.{IsConstraint}

abbrev pub task_week : TaskRow → Option WeekId
task_week row = row.task.week_id

-- the task is there and in the week
abbrev pub IsInWeek : TaskId → WeekId → Tables → Type 0
IsInWeek id week db = column task_week (find_task id db) ≡ some (some week)

-- the task is in a week that is reviewing or closed
pub record IsHistory (id : TaskId) (db : Tables) : Type 0 where
  pub week_id : WeekId
  pub placed : IsInWeek id week_id db
  pub week : Week
  pub known : find_week week_id db ≡ some week
  pub shut : (week.status ≡ WeekStatus.reviewing) ⊎ (week.status ≡ WeekStatus.closed)

-- what stands against an op that was accepted, and the error that it gives
abbrev pub Blocked : Tables → Sin90Op → StoreError → Type 0
Blocked db (transition_task id to) e = IsHistory id db × (e ≡ week_not_open id)
Blocked db (assign_task_direction id d) e = IsHistory id db × (e ≡ week_not_open id)
Blocked db (carry_over_task id to) e =
    (IsHistory id db × (e ≡ week_not_open id)) ⊎ (IsInWeek id to db × (e ≡ same_week_carry id))
Blocked db (adjust_rhythm id alloc) e =
    (d : DirectionId) × Memᴰ d (map Alloc.direction_id alloc)
    × (find_direction d db ≡ none)
    × (e ≡ not_found "direction" d)
Blocked db (reorder_tasks week order) e =
    (id : TaskId) × Memᴰ id order × (IsInWeek id week db → ⊥) × (e ≡ not_found "task" id)
Blocked db (create_area title) e = ⊥
Blocked db (create_task title d parent kind energy est) e = ⊥
Blocked db (create_direction title window) e = ⊥
Blocked db (create_tasks week tasks) e = ⊥
Blocked db (draft_review_body id base body) e = ⊥

abbrev pub Unblocked : Tables → Sin90Op → Type 0
Unblocked db op = (e : StoreError) → Blocked db op e → ⊥

-- the errors that are left for an op that was accepted
abbrev pub Refusal : Tables → Sin90Op → StoreError → Type 0
Refusal db op e = Blocked db op e ⊎ IsConstraint e

shut_of :
    (s : WeekStatus)
    → not (week_is_open s) ≡ true
    → (s ≡ WeekStatus.reviewing) ⊎ (s ≡ WeekStatus.closed)
unfolding week_is_open
shut_of WeekStatus.planning h = absurd (ground (arith, h))
shut_of WeekStatus.active h = absurd (ground (arith, h))
shut_of WeekStatus.reviewing h = inl refl
shut_of WeekStatus.closed h = inr refl

not_shut :
    (s : WeekStatus)
    → not (week_is_open s) ≡ false
    → (s ≡ WeekStatus.reviewing) ⊎ (s ≡ WeekStatus.closed)
    → ⊥
unfolding week_is_open
not_shut s h (inl e) = absurd (ground (arith, rw e at h))
not_shut s h (inr e) = absurd (ground (arith, rw e at h))

pub require_task_week_open-Ends :
    (id : TaskId) (db : Tables)
    → Ends
        (λ u. IsHistory id db → ⊥)
        (λ e. IsHistory id db × (e ≡ week_not_open id))
        (require_task_week_open id db)
unfolding require_task_week_open
require_task_week_open-Ends id db = elim (Option-cases (find_task id db)) [
  | inl e ↦ rw e (returns tt λ h. let p = h.placed in cc (ap (column task_week) e, p))
  | inr (row, e) ↦ elim (Option-cases row.task.week_id) [
    | inl w ↦ rw (e, w) (returns tt λ h. let p = h.placed in cc (ap (column task_week) e, w, p))
    | inr (week_id, w) ↦
        let same : (h : IsHistory id db) → h.week_id ≡ week_id =
          λ h. let p = h.placed in cc (ap (column task_week) e, w, p) in
        let found : (h : IsHistory id db) → find_week week_id db ≡ some h.week =
          λ h. subst (λ x. find_week x db ≡ some h.week) (same h) h.known in
        elim (Option-cases (find_week week_id db)) [
          | inl k ↦ rw (e, w, k) (returns tt λ h. let f = found h in cc (k, f))
          | inr (week, k) ↦ elim (Bool-cases (not (week_is_open week.status))) [
            | inl q ↦
                rw (e, w, k, q)
                  (fails (week_not_open id) (
                    record {
                      week_id = week_id;
                      placed = ap (column task_week) e ∙ ap some w;
                      week = week;
                      known = k;
                      shut = shut_of week.status q;
                    },
                    refl,
                  ))
            | inr q ↦
                rw (e, w, k, q)
                  (returns tt λ h.
                    let f = found h in
                    let one : h.week ≡ week = cc (k, f) in
                    not_shut week.status q (
                      subst
                        (λ x. (x.status ≡ WeekStatus.reviewing) ⊎ (x.status ≡ WeekStatus.closed))
                        one h.shut))
          ]
        ]
  ]
]

pub in_week-IsInWeek :
    (id : TaskId) (week : WeekId) (db : Tables)
    → (in_week week (find_task id db) ≡ true) ↔ IsInWeek id week db
in_week-IsInWeek id week db = elim (Option-cases (find_task id db)) [
  | inl e ↦ rw e ((λ h. cc), (λ h. cc))
  | inr (row, e) ↦ elim (Option-cases row.task.week_id) [
    | inl w ↦ rw (e, w) ((λ h. cc), (λ h. cc))
    | inr (other, w) ↦
        rw (e, w)
          (
            (λ h. ap (λ x. some (some x)) ((eq_iff other week).0 h)),
            (λ h. (eq_iff other week).1 (inner other h)),
          )
  ]
]
  where
    inner : (other : WeekId) → some (some other) ≡ some (some week) → other ≡ week
    inner other h = cc

pub read_task_known :
    (id : TaskId) (db : Tables) (s : TaskStatus)
    → column task_status_column (find_task id db) ≡ some s
    → read_task_status id db ≡ ok s
unfolding read_task_status
read_task_known id db s h = ground (arith, h)

pub open_rhythm :
    (o : Option Rhythm)
    → column is_retired o ≡ some false
    → (from : RhythmStatus) × (column Rhythm.status o ≡ some from)
      × (transition_checked (check_rhythm_transition from RhythmStatus.adjusted) ≡ ok tt)
unfolding check_rhythm_transition rhythm_transition_allowed
open_rhythm none h = absurd (ground arith)
open_rhythm (some r) h = go r.status refl (some-injective h)
  where
    some-injective : {b c : Bool} → some b ≡ some c → b ≡ c
    some-injective e = cc

    go :
        (s : RhythmStatus)
        → r.status ≡ s
        → is_retired r ≡ false
        → (from : RhythmStatus) × (column Rhythm.status (some r) ≡ some from)
          × (transition_checked (check_rhythm_transition from RhythmStatus.adjusted) ≡ ok tt)
    go RhythmStatus.active e q = (RhythmStatus.active, ap some e, refl)
    go RhythmStatus.adjusted e q = (RhythmStatus.adjusted, ap some e, refl)
    go RhythmStatus.retired e q = absurd (true-false (rw e at q))
      where
        true-false : true ≡ false → ⊥
        true-false h = cc

pub read_rhythm_known :
    (id : RhythmId) (db : Tables) (from : RhythmStatus)
    → column Rhythm.status (find_rhythm id db) ≡ some from
    → read_rhythm_status id db ≡ ok from
unfolding read_rhythm_status
read_rhythm_known id db from h = ground (arith, h)

pub checked_ok :
    (from to : TaskStatus)
    → task_transition_allowed from to ≡ true
    → transition_checked (check_task_transition from to) ≡ ok tt
unfolding check_task_transition
checked_ok from to h = rw h refl

pub false-true : false ≡ true → ⊥
false-true h = cc

column_injective : {A : Type 0} {x y : A} → some x ≡ some y → x ≡ y
column_injective h = cc

pub lost :
    (id : TaskId) (s : TaskStatus) (db : Tables)
    → column task_status_column (find_task id db) ≡ some s
    → find_task id db ≡ none
    → ⊥
lost id s db h e = ground (arith, h, e)

pub in_inbox_known :
    (o : Option TaskRow) (current : Option DirectionId)
    → column task_direction_column o ≡ some current
    → (current ≡ none) ⊎ (current ≡ some triage_direction_id)
    → in_inbox o ≡ true
in_inbox_known none current h c = absurd (ground arith)
in_inbox_known (some row) current h c =
    let e : row.task.direction_id ≡ current = column_injective h in
    elim c [ inl q ↦ rw (e, q) refl | inr q ↦ rw (e, q) refl ]

pub drafted_known :
    (body_sha256 : String → String) (db : Tables) (o : Option Review) (r : ReviewSnap)
    → column (review_column body_sha256 db) o ≡ some r
    → r.status ≡ ReviewStatus.draft
    → drafted o ≡ true
drafted_known body_sha256 db none r h e = absurd (ground arith)
drafted_known body_sha256 db (some row) r h e =
    let q : row.status ≡ ReviewStatus.draft = ap ReviewSnap.status (column_injective h) ∙ e in
    rw q refl
