-- ===== src/Yield.antt =====
-- How a yield is resolved: src/workspace/yield.ts and the escalation ladder of
-- src/workspace/yield-escalation.ts. The intents of the workspace ledger are a parameter: the
-- files that a task said it would edit. Timers and their callbacks are separate operations.
pub mod Laws
pub mod Escalation
pub mod Deadlock
mod Tests
use the_bureau.Graph.Types.{YieldContext}
use the_bureau.Prelude.{
  ◌==◌, Bool, List, Option, String, [], any, contains, if◌then◌else◌, false, get_or, length, ltb,
  map, none, not, some, str_eq, ℕ, ◌∷◌,
}

pub data Resolution : Type 0 where
  proceed wait no_conflict : Resolution

-- `getIntent(graphId, id)?.files`
abbrev pub Intents : Type 0
Intents = String → Option (List String)

unfoldable pub overlaps : List String → Option (List String) → Bool
overlaps mine none = false
overlaps mine (some files) = any (λ f. contains f mine) files

unfoldable pub has_overlap : Intents → List String → List String → Bool
has_overlap intents mine agents = any (λ a. overlaps mine (intents a)) agents

-- `shouldAutoResolve`
unfoldable pub should_auto_resolve : Intents → YieldContext → String → Bool → Resolution
should_auto_resolve intents y task_id is_worktree =
    let mine = get_or (intents task_id) [] in
    if length mine == 0
    then no_conflict
    else if not (has_overlap intents mine y.agents)
    then no_conflict
    else if is_worktree
    then proceed
    else wait

-- The three keys of the order of `selectForceProceeder`; an empty SHA is falsy.
unfoldable pub has_commit : YieldContext → ℕ
has_commit y = elim y.partial_complete [
  | none ↦ 0
  | some pc ↦ if str_eq (get_or pc.commit_sha "") "" then 0 else 1
]

unfoldable pub file_count : YieldContext → ℕ
file_count y = elim y.partial_complete [ none ↦ 0 | some pc ↦ length pc.files_modified ]

-- The comparison puts `a` strictly before `b`.
unfoldable pub before : YieldContext → YieldContext → Bool
before a b =
    if not (has_commit a == has_commit b)
    then ltb (has_commit b) (has_commit a)
    else if not (file_count a == file_count b)
    then ltb (file_count b) (file_count a)
    else ltb a.yielded_at b.yielded_at

-- A stable sort by `before`, as `sort` of a JavaScript array is.
unfoldable pub place : YieldContext → List YieldContext → List YieldContext
place x [] = x ∷ []
place x (y ∷ ys) = if before y x then y ∷ place x ys else x ∷ y ∷ ys

unfoldable pub sorted : List YieldContext → List YieldContext
sorted [] = []
sorted (y ∷ ys) = place y (sorted ys)

unfoldable pub first_of : List YieldContext → Option YieldContext
first_of [] = none
first_of (y ∷ ys) = some y

-- `selectForceProceeder`
unfoldable pub select_force_proceeder : List YieldContext → Option String
select_force_proceeder yields = elim (first_of (sorted yields)) [
  | none ↦ none
  | some y ↦ some y.task_id
]
