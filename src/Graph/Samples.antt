-- ===== src/Graph/Samples.antt =====
-- A small graph for runs of the handlers of src/task-graph.ts: `a` runs, `b` waits for it, `c` has
-- failed, and `d` has completed.
use the_bureau.Graph.Env.{Env}
use the_bureau.StateMachine.{TaskStatus}
use the_bureau.Graph.Store.{Store}
use the_bureau.Prelude.{List, String, [], if◌then◌else◌, false, none, some, str_eq, true, ◌∷◌}
use the_bureau.Graph.Types.{GraphStatus, TaskGraph, TaskNode}

abbrev pub node : String → TaskStatus → List String → TaskNode
node id status depends_on = record {
  id = id;
  role = "coder";
  depends_on = depends_on;
  require_approval = false;
  status = status;
  session_id = none;
  exit_code = none;
  retries = 0;
  max_retries = 1;
  started_at = none;
  completed_at = none;
  pod_mode = false;
  exec_mode = false;
  auto_added = false;
  branch = none;
  git_base_ref = none;
  git_branch = none;
  checkpoint_branch = none;
  failure_reason = none;
}

abbrev pub sample_graph : TaskGraph
sample_graph = record {
  id = "g";
  status = GraphStatus.active;
  completed_at = none;
  max_concurrency = none;
  parent_graph_id = none;
  child_graph_ids = [];
  merged_into_graph_id = none;
  destination = none;
  self_improve = false;
  is_rework_fix_child = false;
  attempt = none;
  auto_rework = some (record { max_attempts = 5; fix_role = none });
  current_round = none;
  validation_dispatch_head = none;
  validation_level = none;
  validation_test_cmd = none;
  validation_integration_test_cmd = none;
  criteria = [];
  failure_reason = none;
}

abbrev pub sample_env : Env
sample_env = record {
  session = "engine";
  now = 1000;
  low_memory = false;
  dispatch_fails = λ t. false;
  has_yield_manager = true;
  has_escalation = false;
  has_registry = true;
  has_kill_worker = true;
  has_cleanup = false;
  next_backoff_ms = λ n. 5000;
}

abbrev pub sample_store : Store
sample_store = record {
  graph_id = "g";
  graph = some sample_graph;
  tasks =
      ("a", node "a" TaskStatus.running [])
      ∷ ("b", node "b" TaskStatus.pending ("a" ∷ []))
      ∷ ("c", node "c" TaskStatus.failed ("x" ∷ []))
      ∷ ("d", node "d" TaskStatus.completed [])
      ∷ [];
  deps = λ id. if str_eq id "b" then "a" ∷ [] else [];
  rdeps = λ id. if str_eq id "a" then "b" ∷ [] else if str_eq id "x" then "c" ∷ [] else [];
  completed = "d" ∷ [];
  pending_merges = [];
  locks = λ id. false;
  orchestrator = some "engine";
  started_flag = true;
  completion_locks = λ n. false;
  rework_claims = λ n. false;
  rework_log = [];
  yields = λ id. none;
  resume_notes = [];
  retry_timers = [];
  effects = [];
}
