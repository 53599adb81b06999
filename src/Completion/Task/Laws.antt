-- ===== src/Completion/Task/Laws.antt =====
-- What onTaskCompleted in src/task-graph.ts guarantees.
use the_bureau.Completion.Task.Statuses.{after_write-Follows}
use the_bureau.Graph.Store.Follows.{Follows-completed, find-put}
use the_bureau.Graph.Env.{Env}
use the_bureau.Graph.Failure.{merged_into}
use the_bureau.Completion.{Wiring}
use the_bureau.StateMachine.{
  TaskStatus, is_terminal, transition, transitions, complete, named, Checked,
}
use the_bureau.Graph.Types.{TaskNode, Patch, TaskGraph, no_patch}
use the_bureau.Graph.Store.{
  Result, Store, find, pure, assign, return, update_task_status, write_status,
}
use the_bureau.Prelude.{
  List, Option, String, if◌then◌else◌, none, refl, some, true, ℕ, ◌≡◌, set_add, str_eq_refl, ◌∙◌,
}
use the_bureau.Graph.History.{Handler, run_all, history-completed}
use the_bureau.Completion.Task.{
  Completed, complete_live, has_ended, ignored, on_task_completed, redirected,
}

-- A completion of a task that has ended writes nothing.
ended-is_ignored :
    (w : Wiring) (id session : String) (code : ℕ) (s : Store) (t : TaskNode)
    → find id s.tasks ≡ some t
    → is_terminal t.status ≡ true
    → (on_task_completed w id session code s).1 ≡ s
unfolding on_task_completed has_ended
ended-is_ignored w id session code s t found ended =
    go (merged_into s.graph) (find id s.tasks) found
  where
    go :
        (m : Option String) (o : Option TaskNode)
        → o ≡ some t
        → (elim m as (λ x. Result Completed × Store) [
          | some target ↦ pure (redirected target) s
          | none ↦
              (if has_ended w o then pure ignored else complete_live w id session code s.graph) s
        ]).1
          ≡ s
    go none o e = rw (e, ended) refl
    go (some target) o e = refl

updates :
    (id : String) (new : TaskStatus) (extra : Patch) (s : Store) (t : TaskNode) (c : Checked)
    → find id s.tasks ≡ some t
    → transition t.status new id s.graph_id ≡ c
    → update_task_status id new extra s ≡ write_status id new extra t c s
unfolding update_task_status
updates id new extra s t c found allowed = go (find id s.tasks) found
  where
    go :
        (o : Option TaskNode)
        → o ≡ some t
        → (elim o as (λ x. Result Unit × Store) [
          | none ↦ (return tt, s)
          | some t ↦ write_status id new extra t (transition t.status new id s.graph_id) s
        ])
          ≡ write_status id new extra t c s
    go o e = rw (e, allowed) refl

-- The write of a running task's completion.
running-completes :
    (id : String) (extra : Patch) (s : Store) (t : TaskNode)
    → find id s.tasks ≡ some t
    → t.status ≡ TaskStatus.running
    → ((update_task_status id TaskStatus.completed extra s).0 ≡ return tt)
      × (u : TaskNode) × (find id (update_task_status id TaskStatus.completed extra s).1.tasks
          ≡ some u)
      × (u.status ≡ TaskStatus.completed)
unfolding write_status transition transitions assign
running-completes id extra s t found runs =
    let allowed : transition t.status TaskStatus.completed id s.graph_id ≡ named complete =
      rw runs refl in
    rw (updates id TaskStatus.completed extra s t (named complete) found allowed) (
      refl,
      assign extra (record t { status = TaskStatus.completed }),
      find-put id id (assign extra (record t { status = TaskStatus.completed })) t s.tasks found
          ∙ rw (str_eq_refl id) refl,
      refl,
    )

-- What has completed once the status is written is completed after the rest of the handler.
live-completed :
    (w : Wiring) (id session : String) (code : ℕ) (s : Store) (t : TaskNode) (g : Option TaskGraph)
    → find id s.tasks ≡ some t
    → t.status ≡ TaskStatus.running
    → (u : TaskNode) × (find id (complete_live w id session code g s).1.tasks ≡ some u)
      × (u.status ≡ TaskStatus.completed)
unfolding complete_live
live-completed w id session code s t g found runs =
    let extra : Patch = record no_patch {
      session_id = some (some session);
      exit_code = some (some code);
      completed_at = some (some w.env.now);
    } in
    let first = running-completes id extra s t found runs in
    let s1 = (update_task_status id TaskStatus.completed extra s).1 in
    let s2 : Store = record s1 { completed = set_add id s1.completed } in
    rw (first.0)
      (Follows-completed s2 _ id first.1 ((after_write-Follows w id g).along s2) first.2 first.3)

-- Once a task has completed, its completion may be reported again at any later time, whatever
-- handlers have been called in between: the repeated report changes nothing.
completion-idempotent :
    (w : Wiring) (id session : String) (code : ℕ) (calls : List (Env × Handler)) (s : Store)
    (t : TaskNode)
    → find id s.tasks ≡ some t
    → t.status ≡ TaskStatus.completed
    → (on_task_completed w id session code (run_all calls s)).1 ≡ run_all calls s
unfolding is_terminal
completion-idempotent w id session code calls s t found ended =
    let (u, stays, completed_still) = history-completed calls s id t found ended in
    ended-is_ignored w id session code (run_all calls s) u stays (rw completed_still refl)

first-completed :
    (w : Wiring) (id session : String) (code : ℕ) (s : Store) (t : TaskNode)
    → merged_into s.graph ≡ none
    → find id s.tasks ≡ some t
    → t.status ≡ TaskStatus.running
    → (u : TaskNode) × (find id (on_task_completed w id session code s).1.tasks ≡ some u)
      × (u.status ≡ TaskStatus.completed)
unfolding on_task_completed has_ended is_terminal
first-completed w id session code s t here found runs =
    go (merged_into s.graph) here (find id s.tasks) found
  where
    go :
        (m : Option String)
        → m ≡ none
        → (o : Option TaskNode) → o ≡ some t
        → (u : TaskNode) × (find id
              (elim m as (λ x. Result Completed × Store) [
                | some target ↦ pure (redirected target) s
                | none ↦
                    (if has_ended w o
                        then pure ignored
                        else complete_live w id session code s.graph)
                      s
              ]).1.tasks
            ≡ some u)
          × (u.status ≡ TaskStatus.completed)
    go m e o f = rw (e, f, runs) (live-completed w id session code s t s.graph found runs)

-- The report that a running task of a graph not merged into another has completed leaves it
-- completed, whether or not the rest of the handler throws. It stays so through any later handler
-- calls, and any later report of its completion changes nothing.
pub completed_once :
    (w again : Wiring) (id session other : String) (code later_code : ℕ)
    (calls : List (Env × Handler)) (s : Store) (t : TaskNode)
    → merged_into s.graph ≡ none
    → find id s.tasks ≡ some t
    → t.status ≡ TaskStatus.running
    → (u : TaskNode) × (find id (run_all calls (on_task_completed w id session code s).1).tasks
        ≡ some u)
      × (u.status ≡ TaskStatus.completed)
      × ((on_task_completed again id other later_code
            (run_all calls (on_task_completed w id session code s).1)).1
          ≡ run_all calls (on_task_completed w id session code s).1)
completed_once w again id session other code later_code calls s t here found runs =
    let (u, first, is_completed) = first-completed w id session code s t here found runs in
    let (v, stays, still) =
      history-completed calls (on_task_completed w id session code s).1 id u first is_completed in
    (
      v,
      stays,
      still,
      completion-idempotent again id other later_code calls
          (on_task_completed w id session code s).1 u first is_completed,
    )
