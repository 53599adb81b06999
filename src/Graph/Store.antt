-- ===== src/Graph/Store.antt =====
-- The keys of one graph in Redis, the in-memory retry timers, and the operations on them from
-- which src/task-graph.ts builds its handlers. A handler may throw half-way: what it has written
-- by then stays written, so an action returns the store on both paths.
pub mod Obeys
pub mod Follows
pub mod Steady
use the_bureau.Prelude.{
  ◌&&◌, not, ℕ, String, Bool, true, false, Option, none, some, List, [], ◌∷◌, ◌++◌, map, str_eq,
  contains, get_or, if◌then◌else◌,
}
use the_bureau.StateMachine.{
  TaskStatus, StateTransitionError, Checked, same, named, err, transition,
}
use the_bureau.Graph.Types.{
  TaskNode, Patch, TaskGraph, YieldContext, ReworkEntry, EventType, Effect, event, Error,
  bad_transition, fields_with_status,
}

pub record Store : Type 0 where
  pub graph_id : String
  -- graph:<id>
  pub graph : Option TaskGraph
  -- graph:<id>:taskIds with graph:<id>:tasks:<task>
  pub tasks : List (String × TaskNode)
  -- graph:<id>:deps:<task>, graph:<id>:rdeps:<task>
  pub deps : String → List String
  pub rdeps : String → List String
  -- graph:<id>:completed, graph:<id>:pending_merges
  pub completed : List String
  pub pending_merges : List String
  -- graph:<id>:lock:<task>
  pub locks : String → Bool
  -- graph:<id>:orchestrator
  pub orchestrator : Option String
  -- graph:<id>:started_flag
  pub started_flag : Bool
  -- completionlock:<id>:<attempt>, reworkclaim:<id>:<attempt>
  pub completion_locks : ℕ → Bool
  pub rework_claims : ℕ → Bool
  -- graph:<id>:rework:__validation__
  pub rework_log : List ReworkEntry
  -- bureau:yield:<id>:<task>
  pub yields : String → Option YieldContext
  -- resume:<id>:<task> is set
  pub resume_notes : List String
  -- the delays of `retryTimers.get(id)`
  pub retry_timers : List ℕ
  -- the calls made of other components, the latest first
  pub effects : List Effect

pub data Result (A : Type 0) : Type 0 where
  return : A → Result A
  raise : Error → Result A

abbrev pub Action : Type 0 → Type 0
Action A = Store → Result A × Store

abbrev pub and_then : {A B : Type 0} → Result A → (A → Action B) → Action B
and_then (return a) f s = f a s
and_then (raise e) f s = (raise e, s)

infixl 5 ◌>>=◌ ◌>>◌
abbrev pub ◌>>=◌ : {A B : Type 0} → Action A → (A → Action B) → Action B
◌>>=◌ m f s = and_then (m s).0 f (m s).1

abbrev pub ◌>>◌ : {A B : Type 0} → Action A → Action B → Action B
m >> n = m >>= λ _. n

abbrev pub pure : {A : Type 0} → A → Action A
pure a s = (return a, s)

abbrev pub throw : {A : Type 0} → Error → Action A
throw e s = (raise e, s)

abbrev pub get : Action Store
get s = (return s, s)

abbrev pub modify : (Store → Store) → Action Unit
modify f s = (return tt, f s)

-- `for (const x of xs)` with an accumulator
unfoldable pub fold_m : {A B : Type 0} → (B → A → Action B) → B → List A → Action B
fold_m f b [] = pure b
fold_m f b (x ∷ xs) = f b x >>= λ b'. fold_m f b' xs

-- Keys with a time to live that run out: dispatch locks, completion locks and rework claims.
pub record Expiry : Type 0 where
  pub locks : String → Bool
  pub completion_locks : ℕ → Bool
  pub rework_claims : ℕ → Bool

unfoldable pub expire : Expiry → Store → Store
expire e s = record s {
  locks = λ id. s.locks id && not (e.locks id);
  completion_locks = λ n. s.completion_locks n && not (e.completion_locks n);
  rework_claims = λ n. s.rework_claims n && not (e.rework_claims n);
}

-- `getTask`
unfoldable pub find : String → List (String × TaskNode) → Option TaskNode
find id [] = none
find id ((k, t) ∷ ts) = if str_eq k id then some t else find id ts

-- `redis.set` of a task's key. A key that is not there is left out: the callers have read it.
unfoldable pub put : String → TaskNode → List (String × TaskNode) → List (String × TaskNode)
put id t [] = []
put id t ((k, u) ∷ ts) = if str_eq k id then (k, t) ∷ ts else (k, u) ∷ put id t ts

-- `redis.set` of a task's key, which may be new.
unfoldable pub set_task : String → TaskNode → List (String × TaskNode) → List (String × TaskNode)
set_task id t [] = (id, t) ∷ []
set_task id t ((k, u) ∷ ts) = if str_eq k id then (k, t) ∷ ts else (k, u) ∷ set_task id t ts

-- `getAllTasks`
abbrev pub all_tasks : Store → List TaskNode
all_tasks s = map (λ e. e.1) s.tasks

unfoldable pub emit : EventType → Option String → Action Unit
emit type task_id = modify (λ s. record s { effects = event type task_id ∷ s.effects })

unfoldable pub call : Effect → Action Unit
call e = modify (λ s. record s { effects = e ∷ s.effects })

-- `Object.assign(task, extraFields)`
unfoldable pub assign : Patch → TaskNode → TaskNode
assign p t = record t {
  session_id = get_or p.session_id t.session_id;
  exit_code = get_or p.exit_code t.exit_code;
  retries = get_or p.retries t.retries;
  started_at = get_or p.started_at t.started_at;
  completed_at = get_or p.completed_at t.completed_at;
  git_base_ref = get_or p.git_base_ref t.git_base_ref;
  git_branch = get_or p.git_branch t.git_branch;
  failure_reason = get_or p.failure_reason t.failure_reason;
}

-- The part of `updateTaskStatus` behind the read of the task.
unfoldable pub write_status : String → TaskStatus → Patch → TaskNode → Checked → Action Unit
unfolding assign
write_status id new extra t same = pure tt
write_status id new extra t (named _) =
    modify (λ s. record s { tasks = put id (assign extra (record t { status = new })) s.tasks })
write_status id new extra t (err e) = throw (bad_transition e)

unfoldable pub update_task_status : String → TaskStatus → Patch → Action Unit
unfolding write_status
update_task_status id new extra s = elim (find id s.tasks) [
  | none ↦ (return tt, s)
  | some t ↦ write_status id new extra t (transition t.status new id s.graph_id) s
]

-- The status among the fields, and the other ones: a status is refused.
pub update_task_fields : String → Option TaskStatus → Patch → Action Unit
unfolding assign
update_task_fields id (some status) fields s = (raise fields_with_status, s)
update_task_fields id none fields s = elim (find id s.tasks) [
  | none ↦ (return tt, s)
  | some t ↦ (return tt, record s { tasks = put id (assign fields t) s.tasks })
]
