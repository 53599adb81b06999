-- ===== src/Graph/Add.antt =====
-- A task that is added to an active graph (src/task-graph.ts: addTask).
pub mod Statuses
use the_bureau.Graph.Types.{unknown_dependency}
use the_bureau.Graph.Env.{Env}
use the_bureau.Graph.Dispatch.{dispatch_ready_tasks}
use the_bureau.Graph.Readiness.{deps_ready_and_merged}
use the_bureau.StateMachine.{TaskStatus, pending, ready}
use the_bureau.Dag.{TaskNodeInput, validate_dag}
use the_bureau.Graph.Types.{
  Error, GraphStatus, TaskNode, cyclic_graph, graph_not_active, graph_not_found, no_patch,
  task_added, task_exists,
}
use the_bureau.Graph.Store.{
  ◌>>◌, Action, Store, all_tasks, emit, find, modify, pure, throw, update_task_status, set_task,
}
use the_bureau.Prelude.{
  ◌++◌, Bool, List, Option, String, [], all, contains, if◌then◌else◌, false, is_some, map, none,
  not, set_add, some, str_eq, true, ℕ, ◌∷◌,
}

-- `TaskNodeInput`, with the fields that the modelled handlers read later.
pub record NewTask : Type 0 where
  pub id : String
  pub role : String
  pub depends_on : List String
  pub require_approval : Bool
  pub max_retries : ℕ
  pub branch : Option String
  pub pod_mode : Bool
  pub exec_mode : Bool
  pub auto_added : Bool
  pub git_base_ref : Option String
  pub git_branch : Option String

unfoldable pub pending_node : NewTask → TaskNode
pending_node n = record {
  id = n.id;
  role = n.role;
  depends_on = n.depends_on;
  require_approval = n.require_approval;
  status = TaskStatus.pending;
  session_id = none;
  exit_code = none;
  retries = 0;
  max_retries = n.max_retries;
  started_at = none;
  completed_at = none;
  pod_mode = n.pod_mode;
  exec_mode = n.exec_mode;
  auto_added = n.auto_added;
  branch = n.branch;
  git_base_ref = n.git_base_ref;
  git_branch = n.git_branch;
  checkpoint_branch = none;
  failure_reason = none;
}

-- The input of `validateDAG` for a task.
unfoldable pub dag_input : String → List String → TaskNodeInput
dag_input id depends_on = record { id = id; depends_on = depends_on; validation = none }

-- `sadd` of several members
unfoldable pub add_all : List String → List String → List String
add_all [] set = set
add_all (x ∷ xs) set = add_all xs (set_add x set)

-- The pipeline: the task's key, its dependencies, and it as a dependent of each of them.
unfoldable pub write_task : NewTask → Store → Store
write_task n s = record s {
  tasks = set_task n.id (pending_node n) s.tasks;
  deps = λ j. if str_eq n.id j then add_all n.depends_on (s.deps j) else s.deps j;
  rdeps = λ j. if contains j n.depends_on then set_add n.id (s.rdeps j) else s.rdeps j;
}

unfoldable pub is_active : GraphStatus → Bool
is_active GraphStatus.active = true
is_active _ = false

-- What `addTask` throws before it writes.
unfoldable pub refusal : NewTask → Store → Option Error
refusal n s = elim s.graph [
  | none ↦ some graph_not_found
  | some g ↦
      if not (is_active g.status)
      then some graph_not_active
      else if is_some (find n.id s.tasks)
      then some task_exists
      else if not (all (λ d. contains d (map (λ e. e.0) s.tasks)) n.depends_on)
      then some unknown_dependency
      else elim (validate_dag (
          map (λ t. dag_input t.id t.depends_on) (all_tasks s)
          ++ dag_input n.id n.depends_on ∷ [])) [ none ↦ none | some r ↦ some cyclic_graph ]
]

module _ (env : Env) where
  unfoldable pub ready_added : String → Action Unit
  ready_added id s =
      (if deps_ready_and_merged s id
          then (update_task_status id TaskStatus.ready no_patch
              >> dispatch_ready_tasks env (id ∷ []) none false)
          else pure tt)
        s

  unfoldable pub add_task : NewTask → Action Unit
  add_task n s = elim (refusal n s) [
    | some e ↦ throw e s
    | none ↦ (do modify (write_task n); emit task_added (some n.id); ready_added n.id) s
  ]
