-- ===== src/Rework.antt =====
-- The bounded auto-rework loop: the budget (src/rework-manager.ts), and eligibility, the entry of
-- a round and its terminal end in src/task-graph.ts. What follows an entry, `resumeReworkRound`,
-- is not modelled: an entry that wins returns `handed_over`, with which the source calls it.
pub mod Pin
pub mod Budget
pub mod Eligibility
pub mod Entry
mod Tests
use the_bureau.Graph.Env.{Env}
use the_bureau.Graph.Cancel.{update_graph_status}
use the_bureau.Graph.Store.Follows.{branch}
use the_bureau.Graph.Types.{
  AutoRework, ReworkEntry, Round, TaskGraph, ValidationFailure, graph_validation_failed,
  registry_status, rework_exhausted, reworking, validation_failed,
}
use the_bureau.Graph.Store.{◌>>◌, Action, Store, call, emit, find, modify, pure, put, return}
use the_bureau.Prelude.{
  ◌+◌, ◌++◌, ◌==◌, Bool, List, Option, String, [], contains, if◌then◌else◌, false, get_or, is_some,
  length, ltb, min, none, not, some, str_eq, suc, true, zero, ℕ, ◌∷◌,
}

-- FIXABLE_REWORK_REASONS, REWORK_MAX_ATTEMPTS_CAP, REWORK_MAX_DEPTH, REWORK_VALIDATION_TASK_ID,
-- and DEFAULT_FIX_ROLE of src/criterion-engine.ts
abbrev pub fixable_reasons : List String
fixable_reasons = "exit_nonzero" ∷ "test_failure" ∷ []

abbrev pub max_attempts_cap : ℕ
max_attempts_cap = 3

abbrev pub max_depth : ℕ
max_depth = 3

abbrev pub validation_task_id : String
validation_task_id = "__validation__"

abbrev pub default_fix_role : String
default_fix_role = "debugger"

-- `while (currentId && depth <= 10)`: the loop ends at depth 11, so `suc 10 - depth` rounds are
-- left. An empty parent id is falsy.
depth_from : ℕ → ℕ → (String → Option TaskGraph) → String → ℕ
depth_from zero depth graphs id = depth
depth_from (suc left) depth graphs id = if str_eq id "" then depth else elim (graphs id) [
  | none ↦ depth
  | some g ↦ elim g.parent_graph_id [
    | none ↦ depth
    | some parent ↦ if str_eq parent "" then depth else depth_from left (depth + 1) graphs parent
  ]
]

-- `getGraphDepth`
pub get_graph_depth : (String → Option TaskGraph) → String → ℕ
unfolding depth_from
get_graph_depth graphs id = depth_from 11 0 graphs id

pub record Eligible : Type 0 where
  pub max_attempts : ℕ
  pub fix_role : String

-- The tests of `reworkEligibility` behind those on the graph itself.
check_budget : (String → Option TaskGraph) → TaskGraph → AutoRework → String → Option Eligible
unfolding get_graph_depth
check_budget graphs graph auto reason =
    let m = min auto.max_attempts max_attempts_cap in
    if ltb m 1
    then none
    else if not (contains reason fixable_reasons)
    then none
    else if ltb max_depth (get_graph_depth graphs graph.id)
    then none
    else some (record { max_attempts = m; fix_role = get_or auto.fix_role default_fix_role })

pub rework_eligibility : (String → Option TaskGraph) → TaskGraph → Option String → Option Eligible
unfolding check_budget
rework_eligibility graphs graph reason = elim graph.auto_rework [
  | none ↦ none
  | some auto ↦
      if graph.is_rework_fix_child
      then none
      else if graph.self_improve
      then none
      else elim reason [ none ↦ none | some r ↦ check_budget graphs graph auto r ]
]

-- `ReworkManager` on the list of the graph's validation budget.
pub record_rejection : ReworkEntry → Action Unit
record_rejection entry = modify (λ s. record s { rework_log = s.rework_log ++ entry ∷ [] })

pub get_history : Store → List ReworkEntry
get_history s = s.rework_log

unfoldable pub get_rework_count : Store → ℕ
get_rework_count s = length s.rework_log

unfoldable pub can_rework : ℕ → Store → Bool
can_rework max_reworks s = ltb (length s.rework_log) max_reworks

-- `tryClaimResolution`: SET … NX
unfoldable pub try_claim_resolution : ℕ → Action Bool
try_claim_resolution attempt s =
    (if s.completion_locks attempt
        then pure false
        else (modify (λ s'. record s' {
          completion_locks = λ n. if n == attempt then true else s'.completion_locks n;
        })
            >> pure true))
      s

claim_round : ℕ → Action Unit
claim_round attempt =
    modify (λ s. record s { rework_claims = λ n. if n == attempt then true else s.rework_claims n })

abbrev pub next_attempt : TaskGraph → ℕ
next_attempt g = elim g.current_round [ none ↦ 1 | some r ↦ r.attempt + 1 ]

-- `fresh.currentRound?.baselineHead ?? startHead`
abbrev pub baseline : TaskGraph → String → String
baseline fresh start_head = elim fresh.current_round [
  | none ↦ start_head
  | some r ↦ get_or r.baseline_head start_head
]

abbrev pub new_round : ℕ → ℕ → String → TaskGraph → Option ValidationFailure → Round
new_round now attempt start_head fresh failure = record {
  attempt = attempt;
  start_head = start_head;
  baseline_head = some (baseline fresh start_head);
  entered_at = now;
  validation_child_ids = [];
  failure = failure;
  revalidation_head = none;
}

-- Step (d): the status and the round in one write.
write_round : ℕ → ℕ → String → Option ValidationFailure → TaskGraph → Store → Store
write_round now attempt start_head failure graph s =
    let fresh = get_or s.graph graph in
    record s {
      graph = some (record fresh {
        status = reworking;
        current_round = some (new_round now attempt start_head fresh failure);
      });
    }

pub data Entered : Type 0 where
  refused handed_over : Entered

module _ (env : Env) where
  win_round : ℕ → String → TaskGraph → Option ValidationFailure → String → Action Entered
  unfolding claim_round record_rejection write_round
  win_round attempt start_head graph failure reason = do
    claim_round attempt
    record_rejection (record {
      iteration = attempt;
      reason = reason;
      rejected_by = validation_task_id;
      timestamp = env.now;
    })
    modify (write_round env.now attempt start_head failure graph)
    if env.has_registry then call (registry_status reworking) else pure tt
    pure handed_over

  -- `enterReworkRound`. `start_head` is what readIntegrationHead answers in step (c).
  unfoldable pub enter_rework_round :
      String → TaskGraph → Option ValidationFailure → String → String → ℕ → Action Entered
  unfolding can_rework win_round
  enter_rework_round start_head graph failure reason fix_role max_attempts s =
      (if not (can_rework max_attempts s)
          then (call (rework_exhausted fix_role) >> pure refused)
          else (if s.rework_claims (next_attempt graph)
              then pure refused
              else win_round (next_attempt graph) start_head graph failure reason))
        s

  -- `resolveReworkTerminal`
  unfoldable pub resolve_rework_terminal :
      Round → Option ValidationFailure → Option String → Action Unit
  resolve_rework_terminal round failure_override reason_override = do
    update_graph_status env validation_failed
        (if is_some failure_override then failure_override else round.failure) reason_override
    emit graph_validation_failed none

-- `markCheckpointBranch`
pub mark_checkpoint_branch : String → String → Action Unit
mark_checkpoint_branch task_id branch s = elim (find task_id s.tasks) [
  | none ↦ (return tt, s)
  | some t ↦ (
    return tt,
    record s { tasks = put task_id (record t { checkpoint_branch = some branch }) s.tasks },
  )
]
