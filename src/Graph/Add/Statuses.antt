-- ===== src/Graph/Add/Statuses.antt =====
-- Status moves of addTask in src/task-graph.ts: the tasks that are there stay as they are.
use the_bureau.Graph.Add.{is_active}
use the_bureau.StateMachine.Laws.{start}
use the_bureau.Graph.Env.{Env}
use the_bureau.Graph.Store.{find, Store, set_task}
use the_bureau.Graph.Dispatch.Statuses.{dispatch_ready_tasks-Follows}
use the_bureau.Graph.Readiness.{deps_ready_and_merged}
use the_bureau.StateMachine.{TaskStatus}
use the_bureau.Graph.Types.{TaskNode, no_patch, task_added}
use the_bureau.Graph.Store.Obeys.{Obeys}
use the_bureau.Graph.Add.{NewTask, add_task, ready_added, refusal, write_task}
use the_bureau.Graph.Store.Follows.{
  Follows, Follows-preorder, choose, emit-Follows, ret, seq, update_task_status-Follows,
}
use the_bureau.Prelude.{
  List, String, [], false, none, some, ◌∷◌, ◌≡◌, Bool-cases, Option-cases, inl, inr, is_some,
  str_eq,
}

find-set_task :
    (id new : String) (t u : TaskNode) (ts : List (String × TaskNode))
    → is_some (find new ts) ≡ false
    → find id ts ≡ some t
    → find id (set_task new u ts) ≡ some t
unfolding find set_task
find-set_task id new t u [] miss h = absurd (cc h)
find-set_task id new t u ((k, v) ∷ ts) miss h = elim (Bool-cases (str_eq k new)) [
  | inl clash ↦ absurd (cc (rw clash at miss))
  | inr apart ↦ elim (Bool-cases (str_eq k id)) [
    | inl hit ↦ rw (apart, hit) (rw hit at h)
    | inr other ↦ rw (apart, other) (find-set_task id new t u ts (rw apart at miss) (rw other at h))
  ]
]

-- A task that is there already is refused.
refusal-new : (n : NewTask) (s : Store) → refusal n s ≡ none → is_some (find n.id s.tasks) ≡ false
unfolding refusal
refusal-new n s h = elim (Bool-cases (is_some (find n.id s.tasks))) [
  | inr new ↦ new
  | inl old ↦ elim (Option-cases s.graph) [
    | inl missing ↦ absurd (cc (rw (missing, refusal) at h))
    | inr (g, has) ↦ elim (Bool-cases (is_active g.status)) [
      | inl active ↦ absurd (cc (rw (has, active, old, refusal) at h))
      | inr inactive ↦ absurd (cc (rw (has, inactive, refusal) at h))
    ]
  ]
]

write_task-Follows :
    (n : NewTask) (s : Store) → is_some (find n.id s.tasks) ≡ false → Follows s (write_task n s)
unfolding write_task
write_task-Follows n s new = record {
  moved = λ id t h. record {
    node = t;
    present = find-set_task id n.id t _ s.tasks new h;
    trace = start;
  };
}

module _ (env : Env) where
  ready_added-Follows : (id : String) → Obeys Follows (ready_added env id)
  unfolding ready_added
  ready_added-Follows id = record {
    along = λ s.
        (choose (deps_ready_and_merged s id) _ _
            (seq _ _ (update_task_status-Follows id TaskStatus.ready no_patch)
              λ _. dispatch_ready_tasks-Follows env (id ∷ []) none false)
            (ret tt)).along
          s;
  }

  pub add_task-Follows : (n : NewTask) → Obeys Follows (add_task env n)
  unfolding add_task
  add_task-Follows n = record {
    along = λ s. elim (Option-cases (refusal n s)) [
      | inr (e, no_entry) ↦ rw (no_entry, add_task) (Follows-preorder.still s)
      | inl accepted ↦
          rw (accepted, add_task)
            (Follows-preorder.chain s (write_task n s) _
              (write_task-Follows n s (refusal-new n s accepted))
              ((seq _ _ (emit-Follows task_added (some n.id)) λ _. ready_added-Follows n.id).along
                (write_task n s)))
    ];
  }
