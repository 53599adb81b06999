-- ===== src/Yield/Deadlock.antt =====
-- The search for a deadlock of yields: YieldManager.detectDeadlock in src/workspace/yield.ts.
-- `inStack` always holds the nodes of `stackPath`, each pushed and popped with it, so that one
-- list is both; it is passed down, since each call leaves it as it found it. The fuel is one more
-- than the nodes there are: a call goes deeper by one node that is not on the path.
pub mod Depth
pub mod Laws
use the_bureau.Graph.Types.{YieldContext}
use the_bureau.Prelude.{
  ◌++◌, ◌==◌, Bool, List, Option, String, [], contains, distinct, if◌then◌else◌, false, length, map,
  none, some, str_eq, suc, true, zero, ℕ, ◌∷◌,
}

-- `graph.get(n) ?? []`, where a later entry of the map replaces an earlier one.
unfoldable pub waits_for : List YieldContext → String → List String
waits_for [] n = []
waits_for (y ∷ ys) n =
    if contains n (map (λ z. z.task_id) ys)
    then waits_for ys n
    else if str_eq y.task_id n
    then y.agents
    else []

-- `graph.keys()`
unfoldable pub waiting_tasks : List YieldContext → List String
waiting_tasks ys = distinct (map (λ y. y.task_id) ys)

-- What a call of `dfs` returns: the cycle, or `null` and what `visited` then is.
pub data Search : Type 0 where
  cyclic clear : List String → Search
  lost : Search

-- `stackPath.slice(stackPath.indexOf(node))`
unfoldable pub slice_from : String → List String → List String
slice_from node [] = []
slice_from node (x ∷ xs) = if str_eq x node then x ∷ xs else slice_from node xs

-- `for (const neighbor of neighbors)`
unfoldable pub search_each : (List String → String → Search) → List String → List String → Search
search_each dfs_of visited [] = clear visited
search_each dfs_of visited (n ∷ ns) = elim (dfs_of visited n) [
  | cyclic c ↦ cyclic c
  | lost ↦ lost
  | clear v ↦ search_each dfs_of v ns
]

unfoldable pub dfs : ℕ → (String → List String) → List String → List String → String → Search
dfs zero edges path visited node = lost
dfs (suc fuel) edges path visited node = elim (contains node path) [
  | true ↦ cyclic (slice_from node path ++ node ∷ [])
  | false ↦ elim (contains node visited) [
    | true ↦ clear visited
    | false ↦
        search_each (λ v n. dfs fuel edges (path ++ node ∷ []) v n) (node ∷ visited) (edges node)
  ]
]

-- The loop over the keys: `dfs` from each that is not visited.
unfoldable pub dfs_unvisited : ℕ → (String → List String) → List String → String → Search
dfs_unvisited fuel edges visited node = elim (contains node visited) [
  | true ↦ clear visited
  | false ↦ dfs fuel edges [] visited node
]

pub record Deadlock : Type 0 where
  pub deadlocked : Bool
  pub cycle : List String

unfoldable pub all_nodes : List YieldContext → List String
all_nodes [] = []
all_nodes (y ∷ ys) = (y.task_id ∷ y.agents) ++ all_nodes ys

unfoldable pub answer_of : Search → Option Deadlock
answer_of (cyclic c) = some (record { deadlocked = true; cycle = c })
answer_of (clear v) = some (record { deadlocked = false; cycle = [] })
answer_of lost = none

-- `detectDeadlock`, given `getActiveYields(graphId)`; `none` if the fuel runs out.
unfoldable pub detect_deadlock : List YieldContext → Option Deadlock
detect_deadlock ys =
    if length ys == 0
    then some (record { deadlocked = false; cycle = [] })
    else answer_of (
        search_each (dfs_unvisited (suc (length (all_nodes ys))) (waits_for ys)) []
          (waiting_tasks ys))
