-- ===== src/Graph/Types.antt =====
-- The records of src/types/graph.ts that the task graph manager reads and writes, with the fields
-- that its modelled operations use, and the effects that it has outside its own keys.
use the_bureau.Prelude.{ℕ, String, Bool, Option, none, List}
use the_bureau.StateMachine.{TaskStatus, StateTransitionError}

pub data GraphStatus : Type 0 where
  active completed failed canceled validating validation_failed validated merged reworking :
      GraphStatus

pub record TaskNode : Type 0 where
  pub id : String
  pub role : String
  pub depends_on : List String
  pub require_approval : Bool
  pub status : TaskStatus
  pub session_id : Option String
  pub exit_code : Option ℕ
  pub retries : ℕ
  pub max_retries : ℕ
  pub started_at : Option ℕ
  pub completed_at : Option ℕ
  pub pod_mode : Bool
  pub exec_mode : Bool
  pub auto_added : Bool
  pub branch : Option String
  pub git_base_ref : Option String
  pub git_branch : Option String
  pub checkpoint_branch : Option String
  pub failure_reason : Option String

-- `Omit<Partial<TaskNode>, 'status'>`: `none` for a field that the object lacks. A field given as
-- `undefined` is `some none`.
pub record Patch : Type 0 where
  pub session_id : Option (Option String)
  pub exit_code : Option (Option ℕ)
  pub retries : Option ℕ
  pub started_at : Option (Option ℕ)
  pub completed_at : Option (Option ℕ)
  pub git_base_ref : Option (Option String)
  pub git_branch : Option (Option String)
  pub failure_reason : Option (Option String)

abbrev pub no_patch : Patch
no_patch = record {
  session_id = none;
  exit_code = none;
  retries = none;
  started_at = none;
  completed_at = none;
  git_base_ref = none;
  git_branch = none;
  failure_reason = none;
}

-- `ValidationFailure` of src/types/workspace.ts, as far as it is passed on here.
pub record ValidationFailure : Type 0 where
  pub graph_id : String
  pub at : ℕ

-- `currentRound`
pub record Round : Type 0 where
  pub attempt : ℕ
  pub start_head : String
  pub baseline_head : Option String
  pub entered_at : ℕ
  pub validation_child_ids : List String
  pub failure : Option ValidationFailure
  pub revalidation_head : Option String

pub record AutoRework : Type 0 where
  pub max_attempts : ℕ
  pub fix_role : Option String

pub record TaskGraph : Type 0 where
  pub id : String
  pub status : GraphStatus
  pub completed_at : Option ℕ
  pub max_concurrency : Option ℕ
  pub parent_graph_id : Option String
  pub child_graph_ids : List String
  pub merged_into_graph_id : Option String
  pub destination : Option String
  pub self_improve : Bool
  pub is_rework_fix_child : Bool
  pub attempt : Option ℕ
  pub auto_rework : Option AutoRework
  pub current_round : Option Round
  pub validation_dispatch_head : Option String
  pub validation_level : Option String
  pub validation_test_cmd : Option String
  pub validation_integration_test_cmd : Option String
  -- the types of its acceptance criteria
  pub criteria : List String
  pub failure_reason : Option String

-- `ReworkEntry` of src/types/task.ts
pub record ReworkEntry : Type 0 where
  pub iteration : ℕ
  pub reason : String
  pub rejected_by : String
  pub timestamp : ℕ

pub record PartialComplete : Type 0 where
  pub summary : String
  pub files_modified : List String
  pub commit_sha : Option String

-- `YieldContext` of src/types/workspace.ts
pub record YieldContext : Type 0 where
  pub task_id : String
  pub agents : List String
  pub reason : String
  pub partial_complete : Option PartialComplete
  pub yielded_at : ℕ

pub data EventType : Type 0 where
  task_started task_ready task_approval_required task_failed task_yielded task_retried task_stale
        graph_started graph_canceled graph_failed graph_validated graph_validation_failed
        yield_auto_resolved graph_paused task_completed task_added worktree_merging worktree_merged
        worktree_merge_failed merge_conflict graph_validating graph_completed
        graph_awaiting_children :
      EventType

-- Calls of other components, in the order in which they are made.
pub data Effect : Type 0 where
  event : EventType → Option String → Effect
  dispatched : TaskNode → Effect
  kill_worker : String → TaskNode → Effect
  start_escalation cancel_escalation : String → Effect
  registry_status : GraphStatus → Effect
  registry_done deregister cleanup_workspace : Effect
  registry_failure : ValidationFailure → Effect
  clear_failures_older_than : ℕ → Effect
  rework_exhausted : String → Effect
  -- child_graph_completed, emitted on the graph of this id
  child_completed : String → Effect
  -- calls of the remote merge: promoteIntegration, and mergeTaskIntoIntegration of a task of the
  -- graph into that of an id
  promote_integration : Effect
  merge_task : String → String → Effect
  resolve_after_coordinator : String → Effect

-- What an operation throws.
pub data Error : Type 0 where
  bad_transition : StateTransitionError → Error
  graph_not_found task_not_found not_retryable not_awaiting_approval : Error
  dispatch_error fields_with_status : Error
  graph_not_active task_exists unknown_dependency cyclic_graph : Error
  out_of_fuel : Error
