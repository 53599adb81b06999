-- ===== src/Graph/Readiness/Laws.antt =====
-- What the readiness of a task in src/task-graph.ts says of its dependencies.
use the_bureau.Graph.Types.{TaskNode}
use Prim.Native.String
use the_bureau.StateMachine.{TaskStatus, same_status_iff}
use the_bureau.Graph.Readiness.{are_deps_merged, are_deps_ready, deps_ready_and_merged, is_merged}
use the_bureau.Graph.Store.{Store, find}
use the_bureau.Prelude.{
  ◌==◌, List, String, [], all, arith, contains, if◌then◌else◌, filter, length, not, refl, true, ◌∷◌,
  ◌≡◌, All, Bool-cases, Option-cases, false, inl, inr, none, some, ◌⊎◌,
}

none_left :
    (finished_ids : List String) (deps : List String)
    → length (filter (λ d. not (contains d finished_ids)) deps) ≡ 0
    → All (λ d. contains d finished_ids ≡ true) deps
none_left finished_ids [] h = tt
none_left finished_ids (d ∷ ds) h =
    (ground (arith, h), none_left finished_ids ds (ground (arith, h)))

-- No merge of the task is in flight, and its conflict coordinator is missing or has completed.
pub record IsLanded (s : Store) (id : String) : Type 0 where
  pub no_merge : contains id s.pending_merges ≡ false
  pub coordinated :
      (find (String.◌++◌ "merge-" id) s.tasks ≡ none)
      ⊎ ((t : TaskNode) × (find (String.◌++◌ "merge-" id) s.tasks ≡ some t)
          × (t.status ≡ TaskStatus.completed))

is_merged-IsLanded : (s : Store) (id : String) → is_merged s id ≡ true → IsLanded s id
unfolding is_merged
is_merged-IsLanded s id h = elim (Bool-cases (contains id s.pending_merges)) [
  | inl in_flight ↦ absurd (cc (rw (in_flight, is_merged) at h))
  | inr clear_of ↦ elim (Option-cases (find (String.◌++◌ "merge-" id) s.tasks)) [
    | inl alone ↦ record { no_merge = clear_of; coordinated = inl alone }
    | inr (t, there) ↦ record {
      no_merge = clear_of;
      coordinated = inr (
        t,
        there,
        (same_status_iff t.status TaskStatus.completed).0 (rw (clear_of, there, is_merged) at h),
      );
    }
  ]
]

All-Landed : (s : Store) (ds : List String) → all (is_merged s) ds ≡ true → All (IsLanded s) ds
All-Landed s [] h = tt
All-Landed s (d ∷ ds) h =
    (is_merged-IsLanded s d (ground (arith, h)), All-Landed s ds (ground (arith, h)))

-- A task that the test for readiness accepts has completed dependencies only, and for each of them
-- no merge is in flight and its conflict coordinator, if there is one, has completed.
pub deps_ready_and_merged-All :
    (s : Store) (id : String)
    → deps_ready_and_merged s id ≡ true
    → All (λ d. contains d s.completed ≡ true) (s.deps id) × All (IsLanded s) (s.deps id)
unfolding deps_ready_and_merged are_deps_ready are_deps_merged
deps_ready_and_merged-All s id h = (
  none_left s.completed (s.deps id) (go (s.deps id) (ground (arith, h))),
  All-Landed s (s.deps id) (ground (arith, h)),
)
  where
    go :
        (deps : List String)
        → (if length deps == 0
            then true
            else length (filter (λ d. not (contains d s.completed)) deps) == 0)
          ≡ true
        → length (filter (λ d. not (contains d s.completed)) deps) ≡ 0
    go [] h = refl
    go (d ∷ ds) h = ground (arith, h)
