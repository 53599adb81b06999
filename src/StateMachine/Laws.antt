-- ===== src/StateMachine/Laws.antt =====
-- What the transition table of src/state-machine.ts allows, step by step and over whole histories.
use the_bureau.Prelude.{String, true, false, none, some, ◌≡◌, ◌≢◌, ◌⊎◌, ◌↔◌, inl, inr, refl, arith}
use the_bureau.StateMachine.{
  TaskStatus, completed, failed, canceled, pending, running, validating, ready, awaiting_approval,
  yielded, TransitionName, retry, cancel, dispatch, complete, deps_met, approve, resume,
  transitions, transition, err, StateTransitionError, is_terminal, can_transition_to,
}

-- `can_transition_to` answers true exactly where `transition` does not throw.
pub can_transition_to_iff :
    (from to : TaskStatus) (task_id graph_id : String)
    → (can_transition_to from to ≡ true)
      ↔ ((e : StateTransitionError) → transition from to task_id graph_id ≢ err e)
unfolding can_transition_to transition
can_transition_to_iff from to task_id graph_id = (
  λ h e. ground arith,
  λ h. ground (arith, h (record { task_id = task_id; graph_id = graph_id; from = from; to = to })),
)

-- A terminal status is left by the `retry` transition alone, always for `pending`, and
-- `completed` is not left at all.
pub is_terminal_leaves :
    (from to : TaskStatus) (name : TransitionName)
    → is_terminal from ≡ true
    → transitions from to ≡ some name
    → (to ≡ pending) × (name ≡ retry) × ((from ≡ failed) ⊎ (from ≡ canceled))
unfolding is_terminal transitions
is_terminal_leaves from to name t h = ground arith

-- The statuses that a task goes through, by single entries of the table.
pub data Trace (from : TaskStatus) : TaskStatus → Type 0 where
  start : Trace from from
  step :
      {mid : TaskStatus} (to : TaskStatus) (name : TransitionName)
      → Trace from mid
      → transitions mid to ≡ some name
      → Trace from to

pub Trace-append : {a b c : TaskStatus} → Trace a b → Trace b c → Trace a c
Trace-append p start = p
Trace-append p (step to name q h) = step to name (Trace-append p q) h

-- The task was `s` at some point of the history.
abbrev pub Visits : {a b : TaskStatus} → TaskStatus → Trace a b → Type 0
Visits {b} s start = b ≡ s
Visits s (step to name p h) = (to ≡ s) ⊎ Visits s p

completed-has_no_exit : (to : TaskStatus) → transitions completed to ≡ none
unfolding transitions
completed-has_no_exit to = ground arith

-- A completed task is never anything else again.
pub Trace-completed : {from to : TaskStatus} → from ≡ completed → Trace from to → to ≡ completed
Trace-completed e start = e
Trace-completed e (step to name p h) =
    let ih = Trace-completed e p in cc (completed-has_no_exit to, ih, h)

enters_completed :
    (from : TaskStatus) (name : TransitionName)
    → transitions from completed ≡ some name
    → (from ≡ running) ⊎ (from ≡ validating)
unfolding transitions
enters_completed from name h = ground arith

enters_validating :
    (from : TaskStatus) (name : TransitionName)
    → transitions from validating ≡ some name
    → from ≡ running
unfolding transitions
enters_validating from name h = ground arith

Visits-last : {a b : TaskStatus} (s : TaskStatus) (p : Trace a b) → b ≡ s → Visits s p
Visits-last s start e = e
Visits-last s (step to name p h) e = inl e

before_validating :
    {from to : TaskStatus} (p : Trace from to)
    → to ≡ validating
    → (from ≡ validating) ⊎ Visits running p
before_validating start e = inl e
before_validating (step to name p h) e =
    inr (inr (Visits-last running p (enters_validating _ name (rw e at h))))

-- A task that is completed was running at some point since, unless the history begins with
-- it completed or already under validation.
pub Trace-Visits_running :
    {from to : TaskStatus} (p : Trace from to)
    → to ≡ completed
    → (from ≡ completed) ⊎ (from ≡ validating) ⊎ Visits running p
Trace-Visits_running start e = inl e
Trace-Visits_running (step to name p h) e = elim (enters_completed _ name (rw e at h)) [
  | inl ran ↦ inr (inr (inr (Visits-last running p ran)))
  | inr checked ↦ elim (before_validating p checked) [
    | inl here ↦ inr (inl here)
    | inr ran ↦ inr (inr (inr ran))
  ]
]

-- Every status can be canceled until it is terminal, and can still lead to `completed`.
pub live_status :
    (s : TaskStatus)
    → ((is_terminal s ≡ false) → transitions s canceled ≡ some cancel) × Trace s completed
unfolding is_terminal transitions
live_status pending = (λ _. refl, from_pending)
  where
    from_pending : Trace pending completed
    from_pending =
        step completed complete (step running dispatch (step ready deps_met start refl) refl) refl
live_status ready = (λ _. refl, step completed complete (step running dispatch start refl) refl)
live_status awaiting_approval = (
  λ _. refl,
  step completed complete (step running dispatch (step ready approve start refl) refl) refl,
)
live_status running = (λ _. refl, step completed complete start refl)
live_status validating = (λ _. refl, step completed complete start refl)
live_status completed = (λ h. cc, start)
live_status failed = (
  λ h. cc,
  step completed complete
      (step running dispatch (step ready deps_met (step pending retry start refl) refl) refl) refl,
)
live_status canceled = (
  λ h. cc,
  step completed complete
      (step running dispatch (step ready deps_met (step pending retry start refl) refl) refl) refl,
)
live_status yielded = (λ _. refl, step completed complete (step running resume start refl) refl)
