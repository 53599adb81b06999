-- ===== src/Graph.antt =====
-- The task graph manager (src/task-graph.ts), over the Redis keys of one graph.
pub mod Types
pub mod Env
pub mod Store
pub mod Readiness
pub mod Dispatch
pub mod Walk
pub mod Add
pub mod Cancel
pub mod Retry
pub mod Failure
pub mod History
pub mod Samples
mod Tests
