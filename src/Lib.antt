-- ===== src/Lib.antt =====
-- A verification library for The Bureau, an orchestrator of agents: graphs of tasks, the state of
-- each task, and the services around them, all of which keep their state in Redis.
--
-- The parts, their files here, and the code that they translate (paths from the root of the
-- repository):
--   StateMachine   src/state-machine.ts: statuses, the transition table, transition.
--   Graph          src/task-graph.ts, with the records of src/types. Graph/Types has the records and
--                  the calls made of other components, Graph/Store the keys of one graph and the
--                  operations on them, Graph/Env what is read outside Redis. The handlers are in
--                  Graph/Readiness (readyDependentsOf), Graph/Dispatch (dispatchReadyTasks,
--                  approveTask), Graph/Cancel (cascadeCancel, cancelGraph, reapStaleGraph,
--                  updateGraphStatus), Graph/Retry (resetTaskForRetry, resumeDispatch, retryTask),
--                  Graph/Failure (onTaskFailed, onTaskYielded, resumeYieldedTask,
--                  onValidationCompleted); Graph/Walk is the walk that cascadeCancel and
--                  resetTaskForRetry share, Graph/Add is addTask. Graph/History runs any sequence
--                  of them and of those of Completion.
--   Completion     checkGraphCompletion and promoteIntegrationIfPod of src/task-graph.ts, with the
--                  outcomes that src/spawn/remote-merge.ts defines; Completion/Task is
--                  onTaskCompleted, Completion/Reconcile resumeReworkRound. A check promotes in
--                  Validated, Criteria or Plain; Open, Gates and Once put these together, and
--                  Facts has what a check reads.
--   Rework         src/rework-manager.ts and the rework entry of src/task-graph.ts; Rework/Pin is
--                  src/rework/sha-pin.ts with its uses.
--   FixIntegrity   src/rework/fix-integrity.ts.
--   Dag            src/graph-validate.ts. Dag/Degrees, Rounds, Order, Ranks and Acyclic take the loop
--                  of Kahn's algorithm to the verdict.
--   RetryPolicy    src/retry-policy.ts; RetryPolicy/Storm is its storm detector.
--   FileLocks      src/file-locks.ts; FileLocks/Spec is what it promises, on a table of locks.
--   Leader         src/engine/leader.ts.
--   Registry       src/workspace/graph-registry.ts.
--   Yield          src/workspace/yield.ts; Yield/Escalation is src/workspace/yield-escalation.ts
--                  and Yield/Deadlock detectDeadlock.
--   Siblings       src/workspace/sibling-overlap.ts.
--   Peers          src/registry.ts.
-- Prelude has the shared helpers. In each part a file Statuses, Laws, Termination or of a similar
-- name holds proofs, and Tests holds runs at single inputs.
--
-- How the code is translated. An async method is an action: it takes the store and gives back a
-- result, which is a return or a throw, with the store as it then is, so that what was written
-- before a throw stays written. A handler runs from its start to its end without another one in
-- between: the interleavings at the awaits of two handlers are not modelled. Redis keys are fields
-- of a store, association lists or functions; a SET with NX and a Lua script are single steps. That
-- a lock or a claim with a time to live runs out is a step of its own between two calls.
-- Numbers are natural. Times, exit codes and delays are arguments.
--
-- Bounds and fuel. The walks of Graph/Walk have the fuel `suc (length tasks)`, and the loop of
-- Kahn's algorithm the number of ids: a walk goes on from a stored task once at most, and an id is
-- queued once at most. The search for a deadlock has one more than the nodes: its path has each of
-- them once at most. The walk over the ancestors of a task has the number of all dependencies: it
-- pushes those of a task once at most. getGraphDepth stops by itself at depth 11, which bounds its
-- recursion here.
--
-- What is not modelled: expiry of keys within an operation, the texts of events, prompts and
-- handoffs, telemetry and logs; declareGraph, mergeGraphs, the declaration of child graphs and
-- the criterion engine of src/task-graph.ts (`dispatch_fix` and `revalidating` stand where the
-- reconciler dispatches children, `reconcile` and `handed_over` where a check calls it); git itself,
-- whose outcomes are parameters; regular expressions; and the parts of the program that start
-- processes, serve protocols or call git.
pub mod Prelude
pub mod Siblings
pub mod StateMachine
pub mod Graph
pub mod RetryPolicy
pub mod FileLocks
pub mod Leader
pub mod Rework
pub mod Completion
pub mod FixIntegrity
pub mod Registry
pub mod Yield
pub mod Peers
pub mod Dag
