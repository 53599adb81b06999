-- ===== src/Graph/Retry/Laws.antt =====
-- The walk of resetTaskForRetry in src/task-graph.ts, and its fuel.
use the_bureau.Graph.Walk.{walk}
use the_bureau.Graph.Retry.{cleared, dep_is_ok, reset_dependent, reset_fields, reset_task_for_retry}
use the_bureau.StateMachine.{TaskStatus, same_status}
use the_bureau.Graph.Types.{TaskNode, out_of_fuel, task_retried}
use the_bureau.Graph.Walk.Termination.{
  Enough, Good, Within, Enough-bind, Enough-pure, update_task_status-Enough, Enough-if,
  Enough-modify, never_out, walk-Enough,
}
use the_bureau.Graph.Store.{◌>>◌, Store, find, pure, raise, update_task_status, emit}
use the_bureau.Prelude.{
  ◌&&◌, List, Option, String, [], all, contains, false, none, refl, some, true, ◌∷◌, ◌≡◌, ◌≢◌, Bool,
  if◌then◌else◌, ℕ,
}

reset_dependent-Enough :
    (ids : List String) (d : String)
    → Enough ids (λ go_on. go_on ≡ true → contains d ids ≡ true) (reset_dependent d)
unfolding reset_dependent
reset_dependent-Enough ids d = record { runs = λ s i. go s i (find d s.tasks) refl }
  where
    go :
        (s : Store)
        → Within ids s
        → (o : Option TaskNode) → find d s.tasks ≡ o
        → Within ids (reset_dependent d s).1
          × Good (λ go_on. go_on ≡ true → contains d ids ≡ true) (reset_dependent d s).0
    go s i none e = rw (e, reset_dependent) (i, λ h. cc)
    go s i (some t) e =
        rw (e, reset_dependent)
          ((Enough-if ids _
              (same_status t.status TaskStatus.canceled && all (dep_is_ok s) (s.deps d))
              (update_task_status d TaskStatus.pending cleared >> pure true) _
              (Enough-bind ids _ _ (update_task_status d TaskStatus.pending cleared) _
                (update_task_status-Enough ids d TaskStatus.pending cleared)
                λ x q. Enough-pure ids _ true (λ h. i.covers d (rw e refl)))
              (Enough-pure ids _ false (λ h. cc))).runs
            s i)

reset_task_for_retry-Enough :
    (ids : List String) (id : String) (n : ℕ) (deep : Bool)
    → Enough ids (λ _. Unit) (reset_task_for_retry id n deep)
unfolding reset_task_for_retry emit
reset_task_for_retry-Enough ids id n deep = record {
  runs = λ s i.
      (Enough-bind ids (λ _. Unit) (λ _. Unit)
          (update_task_status id TaskStatus.pending (reset_fields n (find id s.tasks))) _
          (update_task_status-Enough ids id TaskStatus.pending (reset_fields n (find id s.tasks)))
          λ u q.
            Enough-bind ids (λ _. Unit) (λ _. Unit)
              (if deep then walk reset_dependent id (id ∷ []) else pure []) _
              (Enough-if ids (λ _. Unit) deep _ _
                (walk-Enough ids reset_dependent (reset_dependent-Enough ids) id (id ∷ []))
                (Enough-pure ids (λ _. Unit) [] tt))
              λ reset q.
                Enough-bind ids (λ _. Unit) (λ _. Unit) (emit task_retried (some id)) _
                  (Enough-modify ids _ (λ s'. refl))
                  λ v q. Enough-pure ids (λ _. Unit) reset tt).runs
        s i;
}

-- The reset of a task for a retry ends on every graph, also on one whose dependencies are cyclic:
-- the fuel of its walk over the dependents never runs out.
pub reset_task_for_retry-ends :
    (id : String) (n : ℕ) (deep : Bool) (s : Store)
    → (reset_task_for_retry id n deep s).0 ≢ raise out_of_fuel
reset_task_for_retry-ends id n deep s =
    never_out (reset_task_for_retry id n deep) s (λ ids. reset_task_for_retry-Enough ids id n deep)
