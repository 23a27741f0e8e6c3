-- ===== src/Examples/Rules.antt =====
-- Runs of the rules of src/core/transitions.rs and of `check_alloc` of src/core/proposal.rs.
use sin.Prelude.{◌≡◌, ◌↔◌, ◌≢◌, ◌≤◌, refl, List, [], ◌∷◌, All}
use sin.Core.Types.{Alloc, TaskStatus}
use sin.Core.Transitions.{check_task_transition, Checked, ok, err, TransitionError}
use sin.Core.Proposal.Errors.{invalid_alloc, Result}
use sin.Core.Proposal.Alloc.{check_alloc, check_alloc_exact, PctInRange, Distinct, total_pct}

reopen_done :
    check_task_transition TaskStatus.done TaskStatus.planned
    ≡ err (TransitionError.task TaskStatus.done TaskStatus.planned)
unfolding check_task_transition sin.Core.Transitions.task_transition_allowed
reopen_done = refl

abbrev halves : List Alloc
halves =
    record { direction_id = "work"; pct = 50 } ∷ record { direction_id = "study"; pct = 50 } ∷ []

check_alloc_exact_example :
    (check_alloc halves ≡ Result.ok tt)
    ↔ ((halves ≢ []) × All PctInRange halves × Distinct halves × (total_pct halves ≤ 100))
check_alloc_exact_example = check_alloc_exact halves

too_much :
    check_alloc (record { direction_id = "rest"; pct = 1 } ∷ halves)
    ≡ Result.err (invalid_alloc 101)
unfolding check_alloc
too_much = refl
