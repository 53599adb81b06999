-- ===== src/Yield/Tests.antt =====
-- The theorems on yields at two yielding tasks.
use the_bureau.Yield.Deadlock.Laws.{IsVerdict, detect_deadlock_decides}
use the_bureau.Yield.Deadlock.{
  Deadlock, all_nodes, answer_of, detect_deadlock, dfs_unvisited, search_each, slice_from,
  waiting_tasks, waits_for, dfs,
}
use mathlib.Core.List.{Memᴰ}
use the_bureau.Yield.Laws.{no_conflict-has_no_overlap, select_force_proceeder_best, IsNotBehind}
use the_bureau.Graph.Types.{YieldContext}
use the_bureau.Prelude.{
  String, [], contains, if◌then◌else◌, false, get_or, none, refl, some, str_eq, ℕ, ◌∷◌, ◌≡◌, All,
  List, distinct, true,
}
use the_bureau.Yield.{Intents, has_overlap, overlaps, select_force_proceeder, should_auto_resolve}

abbrev waiting_on : String → String → ℕ → YieldContext
waiting_on id agent at = record {
  task_id = id;
  agents = agent ∷ [];
  reason = "";
  partial_complete = none;
  yielded_at = at;
}

select_force_proceeder_best_example :
    (w : YieldContext) × (select_force_proceeder (waiting_on "a" "b" 9 ∷ waiting_on "b" "a" 4 ∷ [])
      ≡ some w.task_id)
    × Memᴰ w (waiting_on "a" "b" 9 ∷ waiting_on "b" "a" 4 ∷ [])
    × All (IsNotBehind w) (waiting_on "a" "b" 9 ∷ waiting_on "b" "a" 4 ∷ [])
select_force_proceeder_best_example =
    select_force_proceeder_best (waiting_on "a" "b" 9) (waiting_on "b" "a" 4 ∷ [])

abbrev intents : Intents
intents = λ id. if str_eq id "a" then some ("x" ∷ []) else some ("y" ∷ [])

no_conflict-has_no_overlap_example :
    All (λ a. All (λ f. contains f ("x" ∷ []) ≡ false) (get_or (intents a) [])) ("b" ∷ [])
unfolding should_auto_resolve has_overlap overlaps contains
no_conflict-has_no_overlap_example =
    no_conflict-has_no_overlap intents (waiting_on "a" "b" 9) "a" false refl

abbrev ring : List YieldContext
ring = waiting_on "a" "b" 1 ∷ waiting_on "b" "c" 2 ∷ waiting_on "c" "b" 3 ∷ []

ring_deadlocks :
    detect_deadlock ring ≡ some (record { deadlocked = true; cycle = "b" ∷ "c" ∷ "b" ∷ [] })
unfolding detect_deadlock dfs dfs_unvisited search_each slice_from waits_for waiting_tasks all_nodes
    answer_of contains distinct
ring_deadlocks = refl

detect_deadlock_decides_example :
    (d : Deadlock) × (detect_deadlock ring ≡ some d) × IsVerdict ring d.deadlocked d.cycle
detect_deadlock_decides_example = detect_deadlock_decides ring
