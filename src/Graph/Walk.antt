-- ===== src/Graph/Walk.antt =====
-- The breadth-first walk over reverse dependencies that cascadeCancel and resetTaskForRetry of
-- src/task-graph.ts share: they differ in what they do at a task, and in whether they go on
-- from it. A walk goes on at stored tasks only and at each once, so its fuel is
-- `suc (length tasks)`.
pub mod Statuses
pub mod Termination
use the_bureau.Prelude.{
  ℕ, zero, suc, String, Bool, true, false, List, [], ◌∷◌, ◌++◌, contains, length, if◌then◌else◌,
}
use the_bureau.Graph.Types.{out_of_fuel}
use the_bureau.Graph.Store.{Store, Action, pure, throw, ◌>>=◌, fold_m}

-- The queue, `visited`, and the tasks that the walk has gone on from, the latest first.
pub record Front : Type 0 where
  pub queue : List String
  pub visited : List String
  pub reached : List String

abbrev pub enqueue : String → Front → Bool → Front
enqueue dep w true = record w { queue = w.queue ++ dep ∷ []; reached = dep ∷ w.reached }
enqueue dep w false = w

module _ (visit : String → Action Bool) where
  -- `if (visited.has(depId)) continue; visited.add(depId); …`
  pub look : Front → String → Action Front
  look w dep =
      if contains dep w.visited
      then pure w
      else (visit dep >>= λ on. pure (enqueue dep (record w { visited = dep ∷ w.visited }) on))

  -- `while (queue.length > 0)`
  pub walk_from : ℕ → Front → List String → Action (List String)
  unfolding look
  walk_from fuel w [] s = pure w.reached s
  walk_from zero w (current ∷ queue) s = throw out_of_fuel s
  walk_from (suc fuel) w (current ∷ queue) s =
      (fold_m look (record w { queue = queue }) (s.rdeps current) >>= λ w'.
      walk_from fuel w' w'.queue)
        s

  -- The walk from one task, with the tasks in `visited` taken as seen.
  pub walk : String → List String → Action (List String)
  unfolding walk_from
  walk from visited s =
      walk_from (suc (length s.tasks))
        (record { queue = from ∷ []; visited = visited; reached = [] }) (from ∷ []) s
