-- ===== src/StateMachine/Tests.antt =====
-- Runs of src/state-machine.ts at single inputs.
use the_bureau.Prelude.{refl, ◌≡◌, ◌⊎◌}
use the_bureau.StateMachine.{
  TaskStatus, TransitionName, is_terminal, named, transition, transitions,
}
use the_bureau.StateMachine.Laws.{
  start, step, Trace, Trace-Visits_running, Visits, is_terminal_leaves,
}

resume_runs : transition TaskStatus.yielded TaskStatus.running "t" "g" ≡ named TransitionName.resume
unfolding transition transitions
resume_runs = refl

abbrev from_pending : Trace TaskStatus.pending TaskStatus.completed
unfolding transitions
from_pending =
    step TaskStatus.completed TransitionName.complete
      (step TaskStatus.running TransitionName.dispatch
        (step TaskStatus.ready TransitionName.deps_met start refl) refl)
      refl

Trace-Visits_running_example :
    (TaskStatus.pending ≡ TaskStatus.completed)
    ⊎ (TaskStatus.pending ≡ TaskStatus.validating)
    ⊎ Visits TaskStatus.running from_pending
Trace-Visits_running_example = Trace-Visits_running from_pending refl

is_terminal_leaves_example :
    (TaskStatus.pending ≡ TaskStatus.pending)
    × (TransitionName.retry ≡ TransitionName.retry)
    × ((TaskStatus.failed ≡ TaskStatus.failed) ⊎ (TaskStatus.failed ≡ TaskStatus.canceled))
unfolding is_terminal transitions
is_terminal_leaves_example =
    is_terminal_leaves TaskStatus.failed TaskStatus.pending TransitionName.retry refl refl
