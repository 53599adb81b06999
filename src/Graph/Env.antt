-- ===== src/Graph/Env.antt =====
-- What a handler of src/task-graph.ts reads outside Redis: the manager's session id and its wired
-- collaborators, the clock, free memory, and whether the dispatch callback rejects a task.
use the_bureau.Prelude.{ℕ, String, Bool}
use the_bureau.Graph.Types.{TaskNode}

pub record Env : Type 0 where
  -- `this.sessionId`, "" if there is none
  pub session : String
  -- `Date.now()`
  pub now : ℕ
  -- `BUREAU_DISABLE_MEM_THROTTLE !== '1' && freeGB < 2.0`
  pub low_memory : Bool
  -- `callbacks.onDispatch` throws on this task
  pub dispatch_fails : TaskNode → Bool
  -- `this.yieldManager`, `this.yieldEscalation`, `this.graphRegistry`, `callbacks.killWorker`,
  -- `callbacks.cleanupWorkspace` are set
  pub has_yield_manager : Bool
  pub has_escalation : Bool
  pub has_registry : Bool
  pub has_kill_worker : Bool
  pub has_cleanup : Bool
  -- `retryPolicy.nextBackoffMs`
  pub next_backoff_ms : ℕ → ℕ
