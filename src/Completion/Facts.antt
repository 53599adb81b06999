-- ===== src/Completion/Facts.antt =====
-- What a completion check in src/task-graph.ts reads of tasks, graphs and the remote merge, and the
-- tests that it makes of them.
use text.Mathlib.Text.{starts_with}
use the_bureau.StateMachine.{TaskStatus, same_status}
use the_bureau.Graph.Env.{Env}
use the_bureau.Rework.Pin.{HeadReader}
use the_bureau.Graph.Types.{GraphStatus, TaskGraph, TaskNode}
use the_bureau.Prelude.{
  ◌&&◌, Bool, List, Option, String, [], if◌then◌else◌, false, get_or, is_some, none, not, some,
  str_eq, true, ◌||◌, ℕ, ◌∷◌, ◌++◌, contains,
}

-- `RemoteMergeOutcome`, or that the call throws.
pub data Strategy : Type 0 where
  ff merge noop conflict error transient deferred : Strategy

pub data Merging : Type 0 where
  outcome : Strategy → Option String → Merging
  fails : Merging

-- `this.remoteMerge`: promoteIntegration of a destination, hasMergeCapability,
-- mergeTaskIntoIntegration of a graph, a task, its branch and a destination, and
-- resolveAfterCoordinator of a task, its conflict branch and a destination.
pub record RemoteMerge : Type 0 where
  pub promotes : Option String → Merging
  pub has_merge_capability : Bool
  pub merges : String → String → String → Option String → Merging
  pub resolves : String → String → Option String → Merging

-- What the manager reads besides `Env`: `getGraph` of other graphs, the reader of integration
-- heads, and `this.remoteMerge`.
pub record Wiring : Type 0 where
  pub env : Env
  pub graphs : String → Option TaskGraph
  pub hooks : Option HeadReader
  pub remote : Option RemoteMerge
  -- whether every result of the criterion engine is passed or skipped, and the graphs that are
  -- declared for the criteria of the other types
  pub inline_passes : Bool
  pub validation_children : List String

-- What a check does last: nothing more, `resumeReworkRound`, or the check of the parent.
pub data Completion : Type 0 where
  settled reconcile : Completion
  check_parent : String → Completion

unfoldable pub is_done : TaskNode → Bool
is_done t =
    same_status t.status TaskStatus.completed
    || same_status t.status TaskStatus.canceled
    || same_status t.status TaskStatus.failed

-- A failure of a rework task or of an added one is not fatal.
unfoldable pub is_fatal : TaskNode → Bool
is_fatal t =
    same_status t.status TaskStatus.failed && not (starts_with t.id "rework-") && not t.auto_added

-- The reason of the first fatal failure that has one; "" is falsy.
unfoldable pub first_reason : List TaskNode → Option String
first_reason [] = none
first_reason (t ∷ ts) =
    if is_fatal t && not (str_eq (get_or t.failure_reason "") "")
    then t.failure_reason
    else first_reason ts

-- A child that is there and in none of the five listed statuses is waited for.
unfoldable pub is_ended : GraphStatus → Bool
is_ended GraphStatus.completed = true
is_ended GraphStatus.validated = true
is_ended GraphStatus.failed = true
is_ended GraphStatus.merged = true
is_ended GraphStatus.validation_failed = true
is_ended _ = false

unfoldable pub is_awaited : Option TaskGraph → Bool
is_awaited none = false
is_awaited (some child) = not (is_ended child.status)

unfoldable pub has_failed : Option TaskGraph → Bool
has_failed none = false
has_failed (some child) = elim child.status [
  | GraphStatus.failed ↦ true
  | GraphStatus.validation_failed ↦ true
  | _ ↦ false
]

-- The failure reason of the first child that has failed.
unfoldable pub first_failed : (String → Option TaskGraph) → List String → Option (Option String)
first_failed graphs [] = none
first_failed graphs (id ∷ ids) = elim (graphs id) [
  | none ↦ first_failed graphs ids
  | some child ↦
      if has_failed (some child) then some child.failure_reason else first_failed graphs ids
]

-- `t.podMode && !t.id.startsWith("merge-")`, `t.podMode && !t.execMode`
unfoldable pub merges_remotely : TaskNode → Bool
merges_remotely t = t.pod_mode && not (starts_with t.id "merge-")

unfoldable pub works_in_pod : TaskNode → Bool
works_in_pod t = t.pod_mode && not t.exec_mode

unfoldable pub is_promoted : Merging → Bool
is_promoted (outcome ff b) = true
is_promoted (outcome merge b) = true
is_promoted (outcome noop b) = true
is_promoted (outcome deferred b) = true
is_promoted _ = false

unfoldable pub attempt_of : TaskGraph → ℕ
attempt_of g = elim g.current_round [ none ↦ 0 | some r ↦ r.attempt ]

unfoldable pub is_reworking : GraphStatus → Bool
is_reworking GraphStatus.reworking = true
is_reworking _ = false

unfoldable pub is_validating : GraphStatus → Bool
is_validating GraphStatus.validating = true
is_validating _ = false

-- What `graph?.x` is where there is no graph.
abbrev pub null_graph : TaskGraph
null_graph = record {
  id = "";
  status = GraphStatus.active;
  completed_at = none;
  max_concurrency = none;
  parent_graph_id = none;
  child_graph_ids = [];
  merged_into_graph_id = none;
  destination = none;
  self_improve = false;
  is_rework_fix_child = false;
  attempt = none;
  auto_rework = none;
  current_round = none;
  validation_dispatch_head = none;
  validation_level = none;
  validation_test_cmd = none;
  validation_integration_test_cmd = none;
  criteria = [];
  failure_reason = none;
}

unfoldable pub has_level : String → TaskGraph → Bool
has_level level g = str_eq (get_or g.validation_level "") level

-- The command of the level, "" where there is none.
unfoldable pub gate_command : TaskGraph → String
gate_command g =
    if has_level "unit" g
    then get_or g.validation_test_cmd ""
    else if has_level "integration" g
    then get_or
        (if is_some g.validation_integration_test_cmd
          then g.validation_integration_test_cmd
          else g.validation_test_cmd)
        ""
    else ""

-- The types of the criteria, with the one that a level with a command adds.
unfoldable pub gate_criteria : TaskGraph → List String
gate_criteria g =
    if str_eq (gate_command g) ""
    then g.criteria
    else if contains "exec" g.criteria
    then g.criteria
    else g.criteria ++ "exec" ∷ []

-- A mechanical level without a criterion that could be run.
unfoldable pub is_gateless : TaskGraph → Bool
is_gateless g =
    (has_level "unit" g || has_level "integration" g) && not (contains "exec" (gate_criteria g))

unfoldable pub is_inline : String → Bool
is_inline type = not (str_eq type "agent") && not (str_eq type "exec")
