-- ===== src/Core/Transitions/Graph.antt =====
-- The transition tables of src/core/transitions.rs as graphs: exits, reachability and length of
-- runs.
use sin.Prelude.{
  ℕ, zero, suc, ◌+◌, ◌≤◌, ◌≡◌, ◌↔◌, refl, subst, Bool, true, false, List, [], ◌∷◌, ◌++◌, arith,
}
use sin.Core.Types.{
  DirectionStatus, TaskStatus, WeekStatus, ScheduleBlockStatus, RhythmStatus, ReviewStatus,
  RoutineStatus, ProposalStatus,
}
use sin.Core.Transitions.{
  direction_transition_allowed, task_transition_allowed, week_transition_allowed,
  schedule_block_transition_allowed, rhythm_transition_allowed, review_transition_allowed,
  routine_transition_allowed, proposal_transition_allowed, direction_is_terminal, task_is_terminal,
  week_is_terminal, schedule_block_is_terminal, rhythm_is_terminal, review_is_terminal,
  routine_is_terminal, proposal_is_terminal,
}

-- `n` legal transitions lead from the first status to the second
pub data Run {S : Type 0} (allowed : S → S → Bool) (s : S) : ℕ → S → Type 0 where
  here : Run allowed s zero s
  next : {n : ℕ} {t : S} (u : S) → Run allowed s n t → allowed t u ≡ true → Run allowed s (suc n) u

pub Run-trans :
    {S : Type 0} {allowed : S → S → Bool} {s t u : S} {n m : ℕ}
    → Run allowed s n t
    → Run allowed t m u
    → (k : ℕ) → k ≡ n + m
    → Run allowed s k u
Run-trans {allowed = allowed} {s = s} {t = t} r here k e =
    subst (λ i. Run allowed s i t) (omega arith) r
Run-trans {allowed = allowed} {s = s} {n = n} r (next {n = m} u q h) k e =
    subst (λ i. Run allowed s i u) (omega arith) (next u (Run-trans r q (n + m) refl) h)

-- `terminal` holds of exactly the statuses that no transition leaves
abbrev pub ExitsMatch : {S : Type 0} → (S → S → Bool) → (S → Bool) → Type 0
ExitsMatch {S} allowed terminal = (s : S) → (terminal s ≡ true) ↔ ((t : S) → allowed s t ≡ false)

-- every status is reached from `start`
abbrev pub AllReached : {S : Type 0} → (S → S → Bool) → S → Type 0
AllReached {S} allowed start = (s : S) → (n : ℕ) × Run allowed start n s

-- no status is stuck before the end: a terminal status is reached from every status
abbrev pub CanEnd : {S : Type 0} → (S → S → Bool) → (S → Bool) → Type 0
CanEnd {S} allowed terminal = (s : S) → (n : ℕ) × (t : S) × Run allowed s n t × (terminal t ≡ true)

direction_exits : ExitsMatch direction_transition_allowed direction_is_terminal
unfolding direction_transition_allowed direction_is_terminal
direction_exits DirectionStatus.draft = (λ h. cc, λ h. cc (h DirectionStatus.active))
direction_exits DirectionStatus.active = (λ h. cc, λ h. cc (h DirectionStatus.paused))
direction_exits DirectionStatus.paused = (λ h. cc, λ h. cc (h DirectionStatus.active))
direction_exits _ = (λ h t. refl, λ h. refl)

task_exits : ExitsMatch task_transition_allowed task_is_terminal
unfolding task_transition_allowed task_is_terminal
task_exits TaskStatus.backlog = (λ h. cc, λ h. cc (h TaskStatus.planned))
task_exits TaskStatus.planned = (λ h. cc, λ h. cc (h TaskStatus.dropped))
task_exits TaskStatus.in_progress = (λ h. cc, λ h. cc (h TaskStatus.done))
task_exits _ = (λ h t. refl, λ h. refl)

week_exits : ExitsMatch week_transition_allowed week_is_terminal
unfolding week_transition_allowed week_is_terminal
week_exits WeekStatus.planning = (λ h. cc, λ h. cc (h WeekStatus.active))
week_exits WeekStatus.active = (λ h. cc, λ h. cc (h WeekStatus.reviewing))
week_exits WeekStatus.reviewing = (λ h. cc, λ h. cc (h WeekStatus.closed))
week_exits _ = (λ h t. refl, λ h. refl)

block_exits : ExitsMatch schedule_block_transition_allowed schedule_block_is_terminal
unfolding schedule_block_transition_allowed schedule_block_is_terminal
block_exits ScheduleBlockStatus.planned = (λ h. cc, λ h. cc (h ScheduleBlockStatus.started))
block_exits ScheduleBlockStatus.started = (λ h. cc, λ h. cc (h ScheduleBlockStatus.skipped))
block_exits _ = (λ h t. refl, λ h. refl)

rhythm_exits : ExitsMatch rhythm_transition_allowed rhythm_is_terminal
unfolding rhythm_transition_allowed rhythm_is_terminal
rhythm_exits RhythmStatus.active = (λ h. cc, λ h. cc (h RhythmStatus.retired))
rhythm_exits RhythmStatus.adjusted = (λ h. cc, λ h. cc (h RhythmStatus.retired))
rhythm_exits _ = (λ h t. refl, λ h. refl)

review_exits : ExitsMatch review_transition_allowed review_is_terminal
unfolding review_transition_allowed review_is_terminal
review_exits ReviewStatus.draft = (λ h. cc, λ h. cc (h ReviewStatus.finalized))
review_exits _ = (λ h t. refl, λ h. refl)

routine_exits : ExitsMatch routine_transition_allowed routine_is_terminal
unfolding routine_transition_allowed routine_is_terminal
routine_exits RoutineStatus.active = (λ h. cc, λ h. cc (h RoutineStatus.retired))
routine_exits RoutineStatus.paused = (λ h. cc, λ h. cc (h RoutineStatus.retired))
routine_exits _ = (λ h t. refl, λ h. refl)

proposal_exits : ExitsMatch proposal_transition_allowed proposal_is_terminal
unfolding proposal_transition_allowed proposal_is_terminal
proposal_exits ProposalStatus.pending = (λ h. cc, λ h. cc (h ProposalStatus.applying))
proposal_exits ProposalStatus.applying = (λ h. cc, λ h. cc (h ProposalStatus.applied))
proposal_exits _ = (λ h t. refl, λ h. refl)

-- In each of the eight machines with a terminal test, the test holds of exactly the statuses from
-- which no transition is allowed.
pub terminal_exact :
    ExitsMatch direction_transition_allowed direction_is_terminal
    × ExitsMatch task_transition_allowed task_is_terminal
    × ExitsMatch week_transition_allowed week_is_terminal
    × ExitsMatch schedule_block_transition_allowed schedule_block_is_terminal
    × ExitsMatch rhythm_transition_allowed rhythm_is_terminal
    × ExitsMatch review_transition_allowed review_is_terminal
    × ExitsMatch routine_transition_allowed routine_is_terminal
    × ExitsMatch proposal_transition_allowed proposal_is_terminal
terminal_exact = (
  direction_exits, task_exits, week_exits, block_exits, rhythm_exits, review_exits, routine_exits,
  proposal_exits,
)

task_reached : AllReached task_transition_allowed TaskStatus.backlog
unfolding task_transition_allowed
task_reached TaskStatus.backlog = (0, here)
task_reached TaskStatus.planned = (1, next _ here refl)
task_reached TaskStatus.in_progress = (2, next _ (next TaskStatus.planned here refl) refl)
task_reached TaskStatus.dropped = (1, next _ here refl)
task_reached TaskStatus.carried_over = (2, next _ (next TaskStatus.planned here refl) refl)
task_reached TaskStatus.done =
    (3, next _ (next TaskStatus.in_progress (next TaskStatus.planned here refl) refl) refl)

task-CanEnd : CanEnd task_transition_allowed task_is_terminal
unfolding task_transition_allowed task_is_terminal
task-CanEnd TaskStatus.backlog = (1, TaskStatus.dropped, next _ here refl, refl)
task-CanEnd TaskStatus.planned = (1, TaskStatus.dropped, next _ here refl, refl)
task-CanEnd TaskStatus.in_progress = (1, TaskStatus.dropped, next _ here refl, refl)
task-CanEnd s = (0, s, here, refl)

-- how far a task has come
abbrev task_stage : TaskStatus → ℕ
task_stage TaskStatus.backlog = 0
task_stage TaskStatus.planned = 1
task_stage TaskStatus.in_progress = 2
task_stage _ = 3

task_stage_grows :
    (s t : TaskStatus) → task_transition_allowed s t ≡ true → task_stage s + 1 ≤ task_stage t
unfolding task_transition_allowed
task_stage_grows s t h = ground arith

task_stage_of_run :
    {s t : TaskStatus} {n : ℕ} → Run task_transition_allowed s n t → task_stage s + n ≤ task_stage t
task_stage_of_run here = omega arith
task_stage_of_run (next {t = t} u r h) = omega (arith, task_stage_of_run r, task_stage_grows t u h)

task_stage-le : (t : TaskStatus) → task_stage t ≤ 3
task_stage-le t = ground arith

-- Every task status is reached from `backlog`, a terminal one is reached from every status, and
-- from any status at most three transitions can follow one another.
pub task_lifecycle :
    AllReached task_transition_allowed TaskStatus.backlog
    × CanEnd task_transition_allowed task_is_terminal
    × ((s t : TaskStatus) (n : ℕ) → Run task_transition_allowed s n t → n ≤ 3)
task_lifecycle =
    (task_reached, task-CanEnd, λ s t n r. omega (arith, task_stage_of_run r, task_stage-le t))

applied_from :
    (s : ProposalStatus)
    → proposal_transition_allowed s ProposalStatus.applied ≡ true
    → s ≡ ProposalStatus.applying
unfolding proposal_transition_allowed
applied_from s h = ground arith

applying_from :
    (s : ProposalStatus)
    → proposal_transition_allowed s ProposalStatus.applying ≡ true
    → s ≡ ProposalStatus.pending
unfolding proposal_transition_allowed
applying_from s h = ground arith

nothing_enters_pending :
    (s : ProposalStatus) → proposal_transition_allowed s ProposalStatus.pending ≡ false
unfolding proposal_transition_allowed
nothing_enters_pending s = ground arith

-- the statuses of a run, in their order
abbrev pub visited :
    {S : Type 0} {allowed : S → S → Bool} {s t : S} {n : ℕ} → Run allowed s n t → List S
visited {s = s} here = s ∷ []
visited (next u r h) = visited r ++ (u ∷ [])

visited_to_pending :
    {t : ProposalStatus} {n : ℕ} (r : Run proposal_transition_allowed ProposalStatus.pending n t)
    → t ≡ ProposalStatus.pending
    → visited r ≡ ProposalStatus.pending ∷ []
visited_to_pending here e = refl
visited_to_pending (next {t = t} u r h) e = cc (nothing_enters_pending t, rw e at h)

visited_to_applying :
    {t : ProposalStatus} {n : ℕ} (r : Run proposal_transition_allowed ProposalStatus.pending n t)
    → t ≡ ProposalStatus.applying
    → visited r ≡ ProposalStatus.pending ∷ ProposalStatus.applying ∷ []
visited_to_applying here e = cc
visited_to_applying (next {t = t} u r h) e =
    rw (visited_to_pending r (applying_from t (rw e at h)), e) refl

visited_to_applied :
    {t : ProposalStatus} {n : ℕ} (r : Run proposal_transition_allowed ProposalStatus.pending n t)
    → t ≡ ProposalStatus.applied
    → visited r ≡ ProposalStatus.pending ∷ ProposalStatus.applying ∷ ProposalStatus.applied ∷ []
visited_to_applied here e = cc
visited_to_applied (next {t = t} u r h) e =
    rw (visited_to_applying r (applied_from t (rw e at h)), e) refl

pending_to_applied : Run proposal_transition_allowed ProposalStatus.pending 2 ProposalStatus.applied
unfolding proposal_transition_allowed
pending_to_applied = next _ (next ProposalStatus.applying here refl) refl

-- A pending proposal can become applied, and whichever transitions it takes to that, it goes from
-- pending to applying and from applying to applied, and nowhere else.
pub applied_after_claim :
    Run proposal_transition_allowed ProposalStatus.pending 2 ProposalStatus.applied
    × ((n : ℕ) (r : Run proposal_transition_allowed ProposalStatus.pending n ProposalStatus.applied)
        → visited r
          ≡ ProposalStatus.pending ∷ ProposalStatus.applying ∷ ProposalStatus.applied ∷ [])
applied_after_claim = (pending_to_applied, λ n r. visited_to_applied r refl)
