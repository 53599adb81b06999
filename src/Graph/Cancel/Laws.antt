-- ===== src/Graph/Cancel/Laws.antt =====
-- What cancellation in src/task-graph.ts does to the tasks, beyond the moves of their statuses.
use the_bureau.Graph.Walk.{walk}
use the_bureau.StateMachine.{TaskStatus, same_status, transition, transitions}
use the_bureau.Graph.Cancel.{cancel_dependent, cascade_cancel}
use the_bureau.Graph.Types.{TaskNode, no_patch, out_of_fuel, bad_transition, Error}
use the_bureau.Graph.Store.{Store, find, ◌>>◌, pure, raise, update_task_status, write_status}
use the_bureau.Prelude.{
  List, Option, String, contains, none, refl, some, true, ◌≡◌, [], false, ◌||◌, ◌≢◌, ◌∷◌, ap,
}
use the_bureau.Graph.Walk.Termination.{
  Enough, Good, Within, Enough-bind, Enough-pure, update_task_status-Enough, walk-Enough, Enough-if,
  never_out, walk-throws,
}

cancel_dependent-Enough :
    (ids : List String) (d : String)
    → Enough ids (λ go_on. go_on ≡ true → contains d ids ≡ true) (cancel_dependent d)
unfolding cancel_dependent
cancel_dependent-Enough ids d = record { runs = λ s i. go s i (find d s.tasks) refl }
  where
    go :
        (s : Store)
        → Within ids s
        → (o : Option TaskNode) → find d s.tasks ≡ o
        → Within ids (cancel_dependent d s).1
          × Good (λ go_on. go_on ≡ true → contains d ids ≡ true) (cancel_dependent d s).0
    go s i none e = rw (e, cancel_dependent) (i, λ h. cc)
    go s i (some t) e =
        rw (e, cancel_dependent)
          ((Enough-if ids _
              (same_status t.status TaskStatus.completed || same_status t.status TaskStatus.running)
              _ (update_task_status d TaskStatus.canceled no_patch >> pure true)
              (Enough-pure ids _ false (λ h. cc))
              (Enough-bind ids _ _ (update_task_status d TaskStatus.canceled no_patch) _
                (update_task_status-Enough ids d TaskStatus.canceled no_patch)
                λ x q. Enough-pure ids _ true (λ h. i.covers d (rw e refl)))).runs
            s i)

cascade_cancel-Enough :
    (ids : List String) (id : String) → Enough ids (λ _. Unit) (cascade_cancel id)
unfolding cascade_cancel
cascade_cancel-Enough ids id =
    Enough-bind ids (λ _. Unit) (λ _. Unit) (walk cancel_dependent id []) (λ _. pure tt)
      (walk-Enough ids cancel_dependent (cancel_dependent-Enough ids) id [])
      λ r q. Enough-pure ids (λ _. Unit) tt tt

-- The cascade of a cancellation ends on every graph, also on one whose dependencies are cyclic:
-- the fuel of the walk never runs out.
pub cascade_cancel-ends : (id : String) (s : Store) → (cascade_cancel id s).0 ≢ raise out_of_fuel
cascade_cancel-ends id s = never_out (cascade_cancel id) s (λ ids. cascade_cancel-Enough ids id)

abbrev cannot_cancel : String → Store → Error
cannot_cancel d s = bad_transition (record {
  task_id = d;
  graph_id = s.graph_id;
  from = TaskStatus.failed;
  to = TaskStatus.canceled;
})

update-throws :
    (d : String) (s : Store) (t : TaskNode)
    → find d s.tasks ≡ some t
    → t.status ≡ TaskStatus.failed
    → update_task_status d TaskStatus.canceled no_patch s ≡ (raise (cannot_cancel d s), s)
unfolding update_task_status transition write_status transitions
update-throws d s t found bad =
    rw (found, update_task_status)
      (rw (ap (λ st. transition st TaskStatus.canceled d s.graph_id) bad) refl)

cancel_dependent-throws :
    (d : String) (s : Store) (t : TaskNode)
    → find d s.tasks ≡ some t
    → t.status ≡ TaskStatus.failed
    → cancel_dependent d s ≡ (raise (cannot_cancel d s), s)
unfolding cancel_dependent
cancel_dependent-throws d s t found bad =
    rw (found, cancel_dependent) (rw bad (rw (update-throws d s t found bad) refl))

-- A cascade whose first dependent has itself failed throws there and changes nothing, since the
-- table has no way from `failed` to `canceled`.
pub cascade_cancel-throws :
    (id d : String) (rest : List String) (s : Store) (t : TaskNode)
    → s.rdeps id ≡ d ∷ rest
    → find d s.tasks ≡ some t
    → t.status ≡ TaskStatus.failed
    → cascade_cancel id s ≡ (raise (cannot_cancel d s), s)
unfolding cascade_cancel
cascade_cancel-throws id d rest s t first found bad =
    rw
      (walk-throws cancel_dependent id d rest (cannot_cancel d s) s s first
        (cancel_dependent-throws d s t found bad))
      refl
