-- ===== src/StateMachine.antt =====
-- The task state machine (src/state-machine.ts): the statuses, the transition table, and the
-- functions that consult it. A thrown StateTransitionError is the `err` case of a result.
pub mod Laws
mod Tests
use the_bureau.Prelude.{
  String, ℕ, Bool, true, ◌||◌, Option, none, some, ◌≡◌, ◌↔◌, ◌==◌, arith, is_some, if◌then◌else◌,
}

pub data TaskStatus : Type 0 where
  pending ready awaiting_approval running validating completed failed canceled yielded : TaskStatus

pub data TransitionName : Type 0 where
  deps_met approval_required approve dispatch dispatch_failed validate complete fail oom_retry yield
        resume yield_resolved cancel retry auto_retry :
      TransitionName

-- `TRANSITIONS.get(from)?.get(to)`; every status has a row, and `completed` has an empty one.
unfoldable pub transitions : TaskStatus → TaskStatus → Option TransitionName
transitions pending ready = some deps_met
transitions pending awaiting_approval = some approval_required
transitions pending canceled = some cancel
transitions awaiting_approval ready = some approve
transitions awaiting_approval canceled = some cancel
transitions ready running = some dispatch
transitions ready failed = some dispatch_failed
transitions ready canceled = some cancel
transitions running validating = some validate
transitions running completed = some complete
transitions running failed = some fail
transitions running ready = some oom_retry
transitions running canceled = some cancel
transitions running pending = some auto_retry
transitions running yielded = some yield
transitions validating completed = some complete
transitions validating failed = some fail
transitions validating canceled = some cancel
transitions yielded running = some resume
transitions yielded ready = some yield_resolved
transitions yielded canceled = some cancel
transitions yielded pending = some retry
transitions failed pending = some retry
transitions canceled pending = some retry
transitions _ _ = none

-- The place of a status in the union type, by which two of them are compared.
abbrev pub tag : TaskStatus → ℕ
tag pending = 0
tag ready = 1
tag awaiting_approval = 2
tag running = 3
tag validating = 4
tag completed = 5
tag failed = 6
tag canceled = 7
tag yielded = 8

-- `a === b` on statuses
abbrev pub same_status : TaskStatus → TaskStatus → Bool
same_status a b = tag a == tag b

pub same_status_refl : (a : TaskStatus) → same_status a a ≡ true
same_status_refl a = ground arith

pub same_status_iff : (a b : TaskStatus) → (same_status a b ≡ true) ↔ (a ≡ b)
same_status_iff a b = (λ h. ground arith, λ h. ground arith)

pub record StateTransitionError : Type 0 where
  pub task_id : String
  pub graph_id : String
  pub from : TaskStatus
  pub to : TaskStatus

-- `same` is the `undefined` of an idempotent no-op.
pub data Checked : Type 0 where
  same : Checked
  named : TransitionName → Checked
  err : StateTransitionError → Checked

unfoldable pub transition : TaskStatus → TaskStatus → String → String → Checked
transition from to task_id graph_id =
    if same_status from to then same else elim (transitions from to) [
      | none ↦ err (record { task_id = task_id; graph_id = graph_id; from = from; to = to })
      | some name ↦ named name
    ]

unfoldable pub is_terminal : TaskStatus → Bool
is_terminal status =
    same_status status completed || same_status status failed || same_status status canceled

unfoldable pub can_transition_to : TaskStatus → TaskStatus → Bool
can_transition_to from to = if same_status from to then true else is_some (transitions from to)
