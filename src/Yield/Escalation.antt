-- ===== src/Yield/Escalation.antt =====
-- The escalation ladder of src/workspace/yield-escalation.ts: a check at once, and a fallback
-- after five minutes. A timer that fires leaves the map, then its check runs on the store.
use the_bureau.Graph.Env.{Env}
use the_bureau.Graph.Failure.{resume_yielded_task}
use the_bureau.StateMachine.{TaskStatus, is_terminal, same_status}
use the_bureau.Graph.Types.{TaskNode, YieldContext, graph_paused}
use the_bureau.Yield.{Intents, no_conflict, proceed, should_auto_resolve, wait}
use the_bureau.Graph.Store.{◌>>◌, Action, Result, Store, all_tasks, emit, find, pure, return}
use the_bureau.Prelude.{
  ◌&&◌, ◌*◌, Bool, List, Option, String, [], delete, if◌then◌else◌, false, filter, insert, length,
  ltb, none, not, some, true,
}

pub data Timer : Type 0 where
  immediate fallback : Bool → Timer

-- `timers`, by task of one graph.
abbrev pub Timers : Type 0
Timers = List (String × Timer)

unfoldable pub start_escalation : String → Bool → Timers → Timers
start_escalation task_id is_worktree timers = insert task_id (immediate is_worktree) timers

unfoldable pub cancel_escalation : String → Timers → Timers
cancel_escalation task_id timers = delete task_id timers

unfoldable pub cancel_all : Timers → Timers
cancel_all timers = []

unfoldable pub is_yielded : Option TaskNode → Bool
is_yielded none = false
is_yielded (some t) = same_status t.status TaskStatus.yielded

-- `> totalActive / 2` is a division of numbers that are not whole.
unfoldable pub is_majority : List TaskNode → Bool
is_majority ts =
    let yielded_count = length (filter (λ t. same_status t.status TaskStatus.yielded) ts) in
    let total_active = length (filter (λ t. not (is_terminal t.status)) ts) in
    ltb 0 total_active && ltb total_active (2 * yielded_count)

unfoldable pub check_majority_yielded : Action Unit
check_majority_yielded s = (if is_majority (all_tasks s) then emit graph_paused none else pure tt) s

-- `try { … } catch { log }`
abbrev pub swallow : {A : Type 0} → Action A → Action Unit
swallow m s = (return tt, (m s).1)

module _ (env : Env) (intents : Intents) where
  -- The part of `runAutoResolveCheck` behind its guards: whether the fallback is to be set.
  unfoldable pub resolve_check : String → Bool → YieldContext → Action Bool
  resolve_check task_id is_worktree y s = elim (should_auto_resolve intents y task_id is_worktree) [
    | no_conflict ↦ (swallow (resume_yielded_task env task_id) >> pure false) s
    | proceed ↦ (swallow (resume_yielded_task env task_id) >> pure false) s
    | wait ↦ pure true s
  ]

  unfoldable pub run_auto_resolve_check : String → Bool → Action Bool
  run_auto_resolve_check task_id is_worktree s =
      if is_yielded (find task_id s.tasks)
      then elim (s.yields task_id) [
        | none ↦ pure false s
        | some y ↦ resolve_check task_id is_worktree y s
      ]
      else pure false s

  unfoldable pub run_fallback : String → Bool → Action Unit
  run_fallback task_id is_worktree s =
      (if is_yielded (find task_id s.tasks)
          then ((if is_worktree then swallow (resume_yielded_task env task_id) else pure tt)
              >> check_majority_yielded)
          else pure tt)
        s

  after_check : String → Bool → Timers → Result Bool × Store → Timers × Store
  after_check task_id is_worktree timers (return true, s) =
      (insert task_id (fallback is_worktree) timers, s)
  after_check task_id is_worktree timers (_, s) = (timers, s)

  -- The callback of a timer.
  fire : String → Timer → Timers → Store → Timers × Store
  unfolding after_check
  fire task_id (immediate is_worktree) timers s =
      after_check task_id is_worktree (delete task_id timers)
        (run_auto_resolve_check task_id is_worktree s)
  fire task_id (fallback is_worktree) timers s =
      (delete task_id timers, (run_fallback task_id is_worktree s).1)
