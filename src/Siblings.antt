-- ===== src/Siblings.antt =====
-- Overlaps of files between the parallel tasks of a graph (src/workspace/sibling-overlap.ts). The
-- files that a task's text names, the directory of a file and the order of two ids are parameters.
pub mod Fuel
pub mod Laws
pub mod Parallel
pub mod Tests
use Prim.Native.String
use the_bureau.Prelude.{
  ◌+◌, ◌==◌, Bool, List, Option, String, [], contains, distinct, if◌then◌else◌, false, get_or,
  length, none, some, str_eq, suc, true, zero, ◌||◌, ℕ, ◌∷◌, ◌++◌,
}
use the_bureau.Registry.{footprint_overlap}

pub record TaskInput : Type 0 where
  pub id : String
  pub depends_on : List String
  pub task : String

-- `byId`: of tasks with the same id the last one counts.
unfoldable pub by_id : List TaskInput → String → Option TaskInput
by_id [] id = none
by_id (t ∷ ts) id = elim (by_id ts id) [
  | some u ↦ some u
  | none ↦ if str_eq t.id id then some t else none
]

-- The stack has its top at the head; those visited before are not pushed.
unfoldable pub push : List String → List String → List String → List String
push visited [] stack = stack
push visited (d ∷ ds) stack = push visited ds (if contains d visited then stack else d ∷ stack)

-- The loop of `ancestorsOf`: none where the fuel runs out.
unfoldable pub climb :
    List TaskInput → ℕ → List String → List String → List String → Option (List String)
climb tasks n visited found [] = some found
climb tasks zero visited found (dep ∷ stack) = none
climb tasks (suc n) visited found (dep ∷ stack) = elim (contains dep visited) [
  | true ↦ climb tasks n visited found stack
  | false ↦ elim (by_id tasks dep) [
    | none ↦ climb tasks n (dep ∷ visited) found stack
    | some t ↦ climb tasks n (dep ∷ visited) (dep ∷ found) (push (dep ∷ visited) t.depends_on stack)
  ]
]

-- All dependencies of all tasks: as many steps as a walk can take.
unfoldable pub edge_count : List TaskInput → ℕ
edge_count [] = 0
edge_count (t ∷ ts) = length t.depends_on + edge_count ts

unfoldable pub ancestors_of : List TaskInput → String → Option (List String)
ancestors_of tasks id = elim (by_id tasks id) [
  | none ↦ climb tasks (edge_count tasks) (id ∷ []) [] []
  | some t ↦ climb tasks (edge_count tasks) (id ∷ []) [] (push [] t.depends_on [])
]

-- `ancestors.get(t.id).has(other)`
unfoldable pub is_ancestor : List TaskInput → String → String → Bool
is_ancestor tasks id other = contains other (get_or (ancestors_of tasks id) [])

pub record SiblingOverlap : Type 0 where
  pub a : String
  pub b : String
  pub exact : List String
  pub dir : List String

-- The pairs seen and the overlaps so far.
pub record Pairs : Type 0 where
  pub seen : List String
  pub overlaps : List SiblingOverlap

unfoldable pub pair_key : String → String → String
pair_key a b = String.◌++◌ a (String.◌++◌ "|" b)

module _ (files_of : String → List String) (dir_of : String → String)
    (id_le : String → String → Bool) (all_tasks : List TaskInput) where
  unfoldable pub overlap_of : TaskInput → TaskInput → Option SiblingOverlap
  overlap_of t u =
      let o = footprint_overlap dir_of (distinct (files_of t.task)) (distinct (files_of u.task)) in
      if length o.exact + length o.dir == 0
      then none
      else some (record { a = t.id; b = u.id; exact = o.exact; dir = o.dir })

  unfoldable pub is_sequenced : TaskInput → TaskInput → Bool
  is_sequenced t u = is_ancestor all_tasks t.id u.id || is_ancestor all_tasks u.id t.id

  unfoldable pub see_pair : TaskInput → TaskInput → Pairs → Pairs
  see_pair a b p = if contains (pair_key a.id b.id) p.seen then p else record {
    seen = pair_key a.id b.id ∷ p.seen;
    overlaps = elim (overlap_of a b) [ none ↦ p.overlaps | some o ↦ p.overlaps ++ o ∷ [] ];
  }

  unfoldable pub compare : TaskInput → TaskInput → Pairs → Pairs
  compare t u p =
      if str_eq t.id u.id
      then p
      else if is_sequenced t u
      then p
      else if id_le t.id u.id
      then see_pair t u p
      else see_pair u t p

  unfoldable pub compare_each : TaskInput → List TaskInput → Pairs → Pairs
  compare_each t [] p = p
  compare_each t (u ∷ us) p = compare_each t us (compare t u p)

  unfoldable pub compare_all : List TaskInput → Pairs → Pairs
  compare_all [] p = p
  compare_all (t ∷ ts) p = compare_all ts (compare_each t ts p)

  unfoldable pub find_sibling_file_overlaps : List SiblingOverlap
  find_sibling_file_overlaps =
      (compare_all all_tasks (record { seen = []; overlaps = [] })).overlaps
