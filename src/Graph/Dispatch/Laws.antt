-- ===== src/Graph/Dispatch/Laws.antt =====
-- Ownership and concurrency in the dispatch of src/task-graph.ts.
use the_bureau.Graph.Env.{Env}
use the_bureau.Graph.Dispatch.{claim_dispatch, dispatch_ready_tasks, foreign, room, running_count}
use the_bureau.Graph.Types.{TaskGraph, TaskNode, event, task_stale}
use the_bureau.Graph.Store.{Store, emit, return}
use the_bureau.Prelude.{
  ◌+◌, ◌-◌, ◌==◌, Bool-cases, List, Option, String, [], arith, if◌then◌else◌, false, inl, inr, leb,
  length, none, refl, some, str_eq, suc, take, zero, ℕ, ◌∷◌, ◌≡◌, ◌≤◌,
}

-- While another session owns the graph, a dispatch that is not authoritative starts nothing: it
-- only emits `task_stale`.
dispatch_ready_tasks-foreign :
    (env : Env) (ids : List String) (cached : Option (List TaskNode)) (s : Store) (owner : String)
    → s.orchestrator ≡ some owner
    → str_eq env.session "" ≡ false
    → str_eq owner "" ≡ false
    → str_eq owner env.session ≡ false
    → dispatch_ready_tasks env ids cached false s
      ≡ (return tt, record s { effects = event task_stale none ∷ s.effects })
unfolding dispatch_ready_tasks claim_dispatch foreign emit
dispatch_ready_tasks-foreign env ids cached s owner owned has_session has_owner other =
    rw (has_session, owned, has_owner, other) refl

length-take-le : (n : ℕ) (ids : List String) → length (take n ids) ≤ n
length-take-le zero ids = omega arith
length-take-le (suc n) [] = omega arith
length-take-le (suc n) (i ∷ ids) = omega (arith, length-take-le n ids)

-- With a limit on concurrency, the tasks that run and those that a dispatch has room for are no
-- more than the limit together.
room-bounded :
    (g : TaskGraph) (tasks : List TaskNode) (ids admitted : List String) (limit : ℕ)
    → g.max_concurrency ≡ some limit
    → 1 ≤ limit
    → room g tasks ids ≡ some admitted
    → running_count tasks + length admitted ≤ limit
unfolding room
room-bounded g tasks ids admitted limit limited positive h =
    go (running_count tasks) (length-take-le (limit - running_count tasks) ids) (rw limited at h)
  where
    go :
        (n : ℕ)
        → length (take (limit - n) ids) ≤ limit - n
        → (if limit == 0
            then some ids
            else if leb limit n
            then none
            else some (take (limit - n) ids))
          ≡ some admitted
        → n + length admitted ≤ limit
    go n short h = elim (Bool-cases (leb limit n)) [
      | inl full ↦ ground (arith, h, full, positive)
      | inr below ↦ ground (arith, h, below, positive, short)
    ]
