-- ===== src/Dag.antt =====
-- The checks of a declared graph (src/graph-validate.ts): unknown dependencies, cycles by Kahn's
-- algorithm, and the rules for acceptance criteria. An input without `dependsOn` has an empty
-- list. An id is queued once at most, so
-- the fuel of the loop is the number of ids.
pub mod Laws
pub mod Degrees
pub mod Rounds
pub mod Order
pub mod Ranks
pub mod Acyclic
mod Tests
use the_bureau.Prelude.{
  ◌+◌, ◌++◌, ◌-◌, ◌==◌, List, Option, String, [], contains, if◌then◌else◌, length, none, some,
  str_eq, suc, zero, ℕ, ◌∷◌, Bool, all, any, distinct, filter, ltb, map, not,
}

pub data Level : Type 0 where
  self unit integration : Level

pub record TaskNodeInput : Type 0 where
  pub id : String
  pub depends_on : List String
  pub validation : Option Level

pub data Rejection : Type 0 where
  unknown_dependency : String → String → Rejection
  cycle : ℕ → Rejection
  mixed_criteria : Level → Rejection
  coverage_not_exec bad_coverage_id many_coverages : Rejection

-- `none` if nothing is thrown.
abbrev pub Verdict : Type 0
Verdict = Option Rejection

-- The first dependency that is no id, in the order of the inputs.
unfoldable pub unknown_in : List String → String → List String → Verdict
unknown_in ids task [] = none
unknown_in ids task (d ∷ ds) =
    if contains d ids then unknown_in ids task ds else some (unknown_dependency task d)

unfoldable pub first_unknown : List String → List TaskNodeInput → Verdict
first_unknown ids [] = none
first_unknown ids (i ∷ is) = elim (unknown_in ids i.id i.depends_on) [
  | none ↦ first_unknown ids is
  | some r ↦ some r
]

-- `adj.get(node)`: the inputs that depend on it, once for each mention.
unfoldable pub mentions_of : String → String → List String → List String
mentions_of node task [] = []
mentions_of node task (d ∷ ds) =
    if str_eq d node then task ∷ mentions_of node task ds else mentions_of node task ds

unfoldable pub adj : List TaskNodeInput → String → List String
adj [] node = []
adj (i ∷ is) node = mentions_of node i.id i.depends_on ++ adj is node

-- `inDegree` after the two loops: the mentions of all inputs of this id.
unfoldable pub in_degree : List TaskNodeInput → String → ℕ
in_degree [] id = 0
in_degree (i ∷ is) id =
    if str_eq i.id id then length i.depends_on + in_degree is id else in_degree is id

pub record Kahn : Type 0 where
  pub queue : List String
  pub degrees : String → ℕ
  pub visited : ℕ

-- One neighbour: its degree falls by one, and where that makes it 0 it is queued. (A degree
-- that is 0 would become negative in the source, and here stays 0: neither is queued again.)
unfoldable pub relax : Kahn → String → Kahn
relax k neighbour =
    let deg = k.degrees neighbour - 1 in
    record k {
      degrees = λ id. if str_eq neighbour id then deg else k.degrees id;
      queue = if k.degrees neighbour == 1 then k.queue ++ neighbour ∷ [] else k.queue;
    }

unfoldable pub relax_all : Kahn → List String → Kahn
relax_all k [] = k
relax_all k (n ∷ ns) = relax_all (relax k n) ns

-- `while (queue.length > 0)`; `none` if the fuel runs out.
unfoldable pub drain : ℕ → List TaskNodeInput → Kahn → List String → Option ℕ
drain fuel inputs k [] = some k.visited
drain zero inputs k (node ∷ queue) = none
drain (suc fuel) inputs k (node ∷ queue) =
    let k' = relax_all (record k { queue = queue; visited = k.visited + 1 }) (adj inputs node) in
    drain fuel inputs k' k'.queue

-- `validateDAG`. A count that ran out of fuel would be a rejection.
unfoldable pub id_set : List TaskNodeInput → List String
id_set inputs = distinct (map (λ i. i.id) inputs)

unfoldable pub initial : List TaskNodeInput → Kahn
initial inputs = record {
  queue = filter (λ id. in_degree inputs id == 0) (id_set inputs);
  degrees = in_degree inputs;
  visited = 0;
}

unfoldable pub run_kahn : List TaskNodeInput → Option ℕ
run_kahn inputs = drain (length (id_set inputs)) inputs (initial inputs) (initial inputs).queue

unfoldable pub count_verdict : ℕ → Option ℕ → Verdict
count_verdict total none = some (cycle total)
count_verdict total (some visited) =
    if visited == total then none else some (cycle (total - visited))

unfoldable pub validate_dag : List TaskNodeInput → Verdict
validate_dag inputs = elim (first_unknown (id_set inputs) inputs) [
  | some r ↦ some r
  | none ↦ count_verdict (length (id_set inputs)) (run_kahn inputs)
]

unfoldable pub priority : Level → ℕ
priority self = 1
priority unit = 2
priority integration = 3

unfoldable pub higher : Option Level → Level → Option Level
higher none l = some l
higher (some m) l = if ltb (priority m) (priority l) then some l else some m

unfoldable pub level_from : Option Level → List TaskNodeInput → Option Level
level_from m [] = m
level_from m (i ∷ is) = elim i.validation [
  | none ↦ level_from m is
  | some l ↦ level_from (higher m l) is
]

-- `maxValidationLevel`
unfoldable pub max_validation_level : List TaskNodeInput → Option Level
max_validation_level inputs = level_from none inputs

pub record Criterion : Type 0 where
  pub type : String
  pub coverage_ids : List String

unfoldable pub mixes : Option Level → List Criterion → Verdict
mixes none cs = none
mixes (some self) cs = none
mixes (some l) cs = if any (λ c. str_eq c.type "agent") cs then some (mixed_criteria l) else none

-- The match with `^[A-Za-z0-9._-]+$` is a parameter.
unfoldable pub check_coverage : (String → Bool) → List Criterion → Verdict
check_coverage is_coverage_id [] = none
check_coverage is_coverage_id (c ∷ cs) =
    if not (str_eq c.type "exec")
    then some coverage_not_exec
    else if not (all is_coverage_id c.coverage_ids)
    then some bad_coverage_id
    else check_coverage is_coverage_id cs

unfoldable pub or_else : Verdict → Verdict → Verdict
or_else (some r) v = some r
or_else none v = v

-- `validateGraphInput`; absent criteria are an empty list.
unfoldable pub validate_graph_input :
    (String → Bool) → List TaskNodeInput → List Criterion → Verdict
validate_graph_input is_coverage_id inputs criteria =
    let with_coverage = filter (λ c. not (length c.coverage_ids == 0)) criteria in
    or_else (validate_dag inputs) (
      or_else (mixes (max_validation_level inputs) criteria) (
        or_else (check_coverage is_coverage_id with_coverage)
          (if ltb 1 (length with_coverage) then some many_coverages else none)))
