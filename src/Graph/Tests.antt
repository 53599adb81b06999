-- ===== src/Graph/Tests.antt =====
-- The theorems on the handlers of src/task-graph.ts at the sample graph.
use the_bureau.Graph.Readiness.Laws.{deps_ready_and_merged-All, IsLanded}
use the_bureau.Graph.Readiness.{are_deps_merged, are_deps_ready, deps_ready_and_merged, is_merged}
use the_bureau.Graph.Env.{Env}
use the_bureau.Graph.Samples.{sample_env, sample_store, node}
use the_bureau.Graph.Retry.Laws.{reset_task_for_retry-ends}
use the_bureau.Graph.Retry.{reset_task_for_retry}
use the_bureau.Graph.Store.{find, raise, Store}
use the_bureau.Graph.Cancel.Laws.{cascade_cancel-ends, cascade_cancel-throws}
use the_bureau.Graph.Cancel.{cascade_cancel}
use the_bureau.StateMachine.Laws.{Trace}
use the_bureau.StateMachine.{TaskStatus}
use the_bureau.Graph.Types.{TaskNode, bad_transition, out_of_fuel}
use the_bureau.Prelude.{List, [], none, refl, some, true, ◌∷◌, ◌≡◌, ◌≢◌, contains, All}
use the_bureau.Graph.History.{Handler, history-Trace, run_all}

abbrev calls : List (Env × Handler)
calls =
    (
      sample_env,
      Handler.task_failed "a" "s1" 1 (record { skip_retry = true; failure_reason = none }),
    )
    ∷ (sample_env, Handler.retry "a" true)
    ∷ (sample_env, Handler.cancel)
    ∷ []

history-Trace_example :
    (u : TaskNode) × (find "a" (run_all calls sample_store).tasks ≡ some u)
    × Trace TaskStatus.running u.status
unfolding find
history-Trace_example = history-Trace calls sample_store "a" (node "a" TaskStatus.running []) refl

cascade_cancel-ends_example : (cascade_cancel "a" sample_store).0 ≢ raise out_of_fuel
cascade_cancel-ends_example = cascade_cancel-ends "a" sample_store

reset_task_for_retry-ends_example :
    (reset_task_for_retry "c" 1 true sample_store).0 ≢ raise out_of_fuel
reset_task_for_retry-ends_example = reset_task_for_retry-ends "c" 1 true sample_store

cascade_cancel-throws_example : cascade_cancel "x" sample_store ≡ (
  raise (
      bad_transition (record {
        task_id = "c";
        graph_id = "g";
        from = TaskStatus.failed;
        to = TaskStatus.canceled;
      })),
  sample_store,
)
unfolding find
cascade_cancel-throws_example =
    cascade_cancel-throws "x" "c" [] sample_store (node "c" TaskStatus.failed ("x" ∷ [])) refl refl
      refl

abbrev done_store : Store
done_store = record sample_store { completed = "a" ∷ "d" ∷ [] }

deps_ready_and_merged-All_example :
    All (λ d. contains d ("a" ∷ "d" ∷ []) ≡ true) ("a" ∷ []) × All (IsLanded done_store) ("a" ∷ [])
unfolding deps_ready_and_merged are_deps_ready are_deps_merged is_merged contains find
deps_ready_and_merged-All_example = deps_ready_and_merged-All done_store "b" refl
