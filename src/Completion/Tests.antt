-- ===== src/Completion/Tests.antt =====
-- A graph of one pod task whose validation child has passed, at once or after a fix.
use the_bureau.Completion.Reconcile.{Reconciler, resume_rework_round}
use the_bureau.Completion.Reconcile.Laws.{MayAdvance, resume_rework_round_promotes}
use the_bureau.Graph.Env.{Env}
use the_bureau.Graph.Failure.{merged_into}
use the_bureau.Completion.Task.{on_task_completed}
use the_bureau.Completion.Task.Laws.{completed_once}
use the_bureau.Completion.{fails, transient, RemoteMerge}
use the_bureau.Graph.History.{Handler, run_all}
use the_bureau.Completion.{Wiring, outcome, ff}
use the_bureau.Completion.Once.{checks, reconciles, run_checks, run_checks_promote_once}
use the_bureau.Graph.Store.{Store, find}
use the_bureau.Graph.Store.Steady.{Steady, promotions}
use the_bureau.Completion.Promotion.{IsPromoted}
use the_bureau.Graph.Types.{GraphStatus, TaskGraph, TaskNode}
use the_bureau.Prelude.{
  ◌+◌, [], if◌then◌else◌, none, some, str_eq, true, ◌∷◌, ◌≤◌, ◌⊎◌, List, refl, ◌≡◌, false,
}
use the_bureau.StateMachine.{TaskStatus}
use the_bureau.Graph.Samples.{sample_env, sample_graph, sample_store, node}

abbrev passed_child : TaskGraph
passed_child = record sample_graph { id = "k"; status = GraphStatus.completed }

abbrev validating_graph : TaskGraph
validating_graph = record sample_graph {
  status = GraphStatus.validating;
  child_graph_ids = "k" ∷ [];
}

abbrev validating_store : Store
validating_store = record sample_store {
  graph = some validating_graph;
  tasks = ("d", record (node "d" TaskStatus.completed []) { pod_mode = true }) ∷ [];
}

abbrev wiring : Wiring
wiring = record {
  env = sample_env;
  graphs = λ id. if str_eq id "k" then some passed_child else none;
  hooks = none;
  inline_passes = true;
  validation_children = [];
  remote = some (record {
    promotes = λ destination. outcome ff none;
    has_merge_capability = true;
    merges = λ graph task branch destination. outcome ff none;
    resolves = λ task branch destination. outcome ff none;
  });
}

abbrev fix_graph : TaskGraph
fix_graph = record sample_graph {
  id = "f";
  status = GraphStatus.completed;
  is_rework_fix_child = true;
  attempt = some 1;
}

abbrev reworked_graph : TaskGraph
reworked_graph = record sample_graph {
  status = GraphStatus.reworking;
  child_graph_ids = "f" ∷ "k" ∷ [];
  current_round = some (record {
    attempt = 1;
    start_head = "";
    baseline_head = none;
    entered_at = 0;
    validation_child_ids = "k" ∷ [];
    failure = none;
    revalidation_head = none;
  });
}

abbrev reworked_store : Store
reworked_store = record validating_store { graph = some reworked_graph }

abbrev reconciler : Reconciler
reconciler = record {
  wiring = record wiring {
    graphs = λ id.
        if str_eq id "k" then some passed_child else if str_eq id "f" then some fix_graph else none;
  };
  exec_criteria = [];
  claims_revalidation = true;
  new_children = [];
  patterns = record {
    is_test_file = λ path. false;
    skip_markers = λ language. none;
    is_test_attribute = λ line. false;
    trim = λ line. line;
  };
  failed_coverage = none;
  diff = none;
}

resume_rework_round_promotes_example :
    Steady reworked_store (resume_rework_round reconciler reworked_store).1
    ⊎ (MayAdvance reconciler reworked_store
        × IsPromoted reworked_store (resume_rework_round reconciler reworked_store).1)
resume_rework_round_promotes_example = resume_rework_round_promotes reconciler reworked_store

run_checks_promote_once_example :
    promotions
      (run_checks
        (reconciles reconciler ∷ checks wiring none ∷ reconciles reconciler ∷ [])
        reworked_store).effects
    ≤ promotions reworked_store.effects + 1
run_checks_promote_once_example =
    run_checks_promote_once
      (reconciles reconciler ∷ checks wiring none ∷ reconciles reconciler ∷ []) reworked_store refl

abbrev later_calls : List (Env × Handler)
later_calls = (sample_env, Handler.cancel) ∷ (sample_env, Handler.resume_all) ∷ []

completed_once_example :
    (u : TaskNode) × (find "a"
        (run_all later_calls (on_task_completed wiring "a" "s1" 0 sample_store).1).tasks
      ≡ some u)
    × (u.status ≡ TaskStatus.completed)
    × ((on_task_completed wiring "a" "s2" 1
          (run_all later_calls (on_task_completed wiring "a" "s1" 0 sample_store).1)).1
        ≡ run_all later_calls (on_task_completed wiring "a" "s1" 0 sample_store).1)
unfolding find merged_into
completed_once_example =
    completed_once wiring wiring "a" "s1" "s2" 0 1 later_calls sample_store
      (node "a" TaskStatus.running []) refl refl refl

abbrev failing_remote : RemoteMerge
failing_remote = record {
  promotes = λ destination. outcome ff none;
  has_merge_capability = true;
  merges = λ graph task pushed destination. outcome transient none;
  resolves = λ task pushed destination. fails;
}
