-- ===== src/RetryPolicy/Storm/Laws.antt =====
-- What src/retry-policy.ts's storm detector counts.
use the_bureau.Prelude.{
  ◌++◌, Bool, Bool-cases, List, String, [], arith, filter, inl, inr, leb, refl, str_eq, true, ℕ,
  ◌∷◌, ◌≡◌, ◌⊎◌, distinct, eq_iff, false, str_eq_refl,
}
use the_bureau.RetryPolicy.Storm.{
  FailureRecord, Detector, in_window, recent, distinct_tasks, record_failure, reset, failure_count,
}

in_window_new :
    (now window : ℕ) (task : String)
    → in_window now window (record { task_id = task; failed_at = now }) ≡ true
unfolding in_window
in_window_new now window task = ground arith

filter-filter :
    (p : FailureRecord → Bool) (rs : List FailureRecord) (r : FailureRecord)
    → p r ≡ true
    → filter p (filter p rs ++ r ∷ []) ≡ filter p rs ++ r ∷ []
filter-filter p [] r h = rw h refl
filter-filter p (x ∷ rs) r h = elim (Bool-cases (p x)) [
  | inl e ↦ rw e (rw e (rw (filter-filter p rs r h) refl))
  | inr e ↦ rw e (filter-filter p rs r h)
]

recent-record :
    (d : Detector) (now : ℕ) (graph task : String)
    → recent (record_failure d now graph task).1 now graph
      ≡ recent d now graph ++ record { task_id = task; failed_at = now } ∷ []
unfolding recent record_failure
recent-record d now graph task = rw (str_eq_refl graph) (
    filter-filter (in_window now d.window_ms) (d.failures graph) _
      (in_window_new now d.window_ms task))

first :
    (d : Detector) (now : ℕ) (graph task : String)
    → (record_failure d now graph task).0
      ≡ leb d.threshold
          (distinct_tasks (recent d now graph ++ record { task_id = task; failed_at = now } ∷ []))
unfolding record_failure
first d now graph task = refl

answer :
    (d : Detector) (now : ℕ) (graph task : String)
    → (record_failure d now graph task).0
      ≡ leb d.threshold (failure_count (record_failure d now graph task).1 now graph)
unfolding failure_count
answer d now graph task = rw (recent-record d now graph task) (first d now graph task)

others :
    (d : Detector) (now : ℕ) (graph other task : String)
    → str_eq graph other ≡ false
    → failure_count (record_failure d now graph task).1 now other ≡ failure_count d now other
unfolding failure_count recent record_failure
others d now graph other task e = rw e refl

after_reset :
    (d : Detector) (now : ℕ) (graph : String) → failure_count (reset d graph) now graph ≡ 0
unfolding failure_count recent reset distinct_tasks distinct
after_reset d now graph = rw (str_eq_refl graph) refl

-- The answer of `record` is the storm test on the count that `failureCount` gives right after it,
-- for the same graph and clock; the count of any other graph is what it was, and after a reset
-- the graph's count is 0.
record_failure_counts :
    (d : Detector) (now : ℕ) (graph other task : String)
    → ((record_failure d now graph task).0
        ≡ leb d.threshold (failure_count (record_failure d now graph task).1 now graph))
      × ((graph ≡ other)
          ⊎ (failure_count (record_failure d now graph task).1 now other
              ≡ failure_count d now other))
      × (failure_count (reset d graph) now graph ≡ 0)
record_failure_counts d now graph other task = (
  answer d now graph task,
  elim (Bool-cases (str_eq graph other)) [
    | inl e ↦ inl ((eq_iff graph other).0 e)
    | inr e ↦ inr (others d now graph other task e)
  ],
  after_reset d now graph,
)
