-- ===== src/RetryPolicy/Storm.antt =====
-- Retry storms (src/retry-policy.ts: RetryStormDetector): several distinct tasks of one graph that
-- fail within a window of time.
pub mod Laws
use the_bureau.Prelude.{
  ◌+◌, ◌++◌, Bool, List, String, [], distinct, if◌then◌else◌, filter, leb, length, map, str_eq, ℕ,
  ◌∷◌,
}

pub record FailureRecord : Type 0 where
  pub task_id : String
  pub failed_at : ℕ

pub record Detector : Type 0 where
  pub window_ms : ℕ
  pub threshold : ℕ
  pub failures : String → List FailureRecord

-- `r.failedAt >= now - this.windowMs`; the cutoff may be negative in the source, so the window is
-- added on the other side.
pub in_window : ℕ → ℕ → FailureRecord → Bool
in_window now window r = leb now (r.failed_at + window)

recent : Detector → ℕ → String → List FailureRecord
unfolding in_window
recent d now graph = filter (in_window now d.window_ms) (d.failures graph)

-- `new Set(records.map(r => r.taskId)).size`
pub distinct_tasks : List FailureRecord → ℕ
distinct_tasks rs = length (distinct (map (λ r. r.task_id) rs))

pub record_failure : Detector → ℕ → String → String → Bool × Detector
unfolding recent distinct_tasks
record_failure d now graph task =
    let rs = recent d now graph ++ record { task_id = task; failed_at = now } ∷ [] in
    (
      leb d.threshold (distinct_tasks rs),
      record d { failures = λ g. if str_eq graph g then rs else d.failures g },
    )

pub reset : Detector → String → Detector
reset d graph = record d { failures = λ g. if str_eq graph g then [] else d.failures g }

pub failure_count : Detector → ℕ → String → ℕ
unfolding recent distinct_tasks
failure_count d now graph = distinct_tasks (recent d now graph)
