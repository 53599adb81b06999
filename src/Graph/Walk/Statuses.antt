-- ===== src/Graph/Walk/Statuses.antt =====
-- Status moves of a walk, from those of its visits.
use the_bureau.Prelude.{zero, suc, ℕ, String, Bool, List, [], ◌∷◌, length}
use the_bureau.Graph.Types.{out_of_fuel}
use the_bureau.Graph.Store.{Action}
use the_bureau.Graph.Store.Obeys.{Obeys}
use the_bureau.Graph.Store.Follows.{Follows, ret, throws, seq, loop, choose}
use the_bureau.Graph.Walk.{Front, look, walk_from, walk}

module _ (visit : String → Action Bool) (visits : (d : String) → Obeys Follows (visit d)) where
  look-Follows : (w : Front) (dep : String) → Obeys Follows (look visit w dep)
  unfolding look
  look-Follows w dep = choose _ _ _ (ret w) (seq _ _ (visits dep) λ on. ret _)

  walk_from-Follows :
      (fuel : ℕ) (w : Front) (queue : List String) → Obeys Follows (walk_from visit fuel w queue)
  unfolding walk_from
  walk_from-Follows fuel w [] = record { along = (ret w.reached).along }
  walk_from-Follows zero w (current ∷ queue) = record {
    along = (throws {A = List String} out_of_fuel).along;
  }
  walk_from-Follows (suc fuel) w (current ∷ queue) = record {
    along = λ s.
        (seq _ _ (loop (look visit) (record w { queue = queue }) (s.rdeps current) look-Follows)
            λ w'. walk_from-Follows fuel w' w'.queue).along
          s;
  }

  pub walk-Follows :
      (from : String) (visited : List String) → Obeys Follows (walk visit from visited)
  unfolding walk
  walk-Follows from visited = record {
    along = λ s.
        (walk_from-Follows (suc (length s.tasks))
            (record { queue = from ∷ []; visited = visited; reached = [] }) (from ∷ [])).along
          s;
  }
