-- ===== src/Rework/Pin.antt =====
-- The SHA pin of a validated graph (src/rework/sha-pin.ts) and its use in src/task-graph.ts.
pub mod Laws
use the_bureau.Graph.Types.{Round, TaskGraph}
use the_bureau.Graph.Store.{Action, return}
use the_bureau.Prelude.{◌+◌, Option, String, if◌then◌else◌, none, not, some, str_eq, ℕ, ◌++◌}
use text.Mathlib.Text.{starts_with}
use Prim.Native.String

-- What a call of `getIntegrationHead` does.
pub data Reading : Type 0 where
  answers : Option String → Reading
  fails : Reading

-- The hooks; the reading depends on the graph, the destination and the number of the call.
pub record HeadReader : Type 0 where
  pub get_integration_head : Option (String → Option String → ℕ → Reading)

abbrev pub head_of : Reading → String
head_of (answers (some head)) = head
head_of (answers none) = ""
head_of fails = ""

-- `hooks?.getIntegrationHead?.(…)`
unfoldable pub read_integration_head : Option HeadReader → String → Option String → ℕ → String
read_integration_head none graph_id dest n = ""
read_integration_head (some hooks) graph_id dest n = elim hooks.get_integration_head [
  | none ↦ ""
  | some reader ↦ head_of (reader graph_id dest n)
]

-- The second call is made only when the first one gives no head.
unfoldable pub capture_integration_head_for_pin :
    Option HeadReader → String → Option String → ℕ → Option String
capture_integration_head_for_pin none graph_id dest n = none
capture_integration_head_for_pin (some hooks) graph_id dest n = elim hooks.get_integration_head [
  | none ↦ none
  | some reader ↦
      let first = read_integration_head (some hooks) graph_id dest n in
      if not (str_eq first "")
      then some first
      else some (read_integration_head (some hooks) graph_id dest (n + 1))
]

-- `GuardVerdict`
pub data Verdict : Type 0 where
  passes : Verdict
  refuses : String → Verdict

abbrev pub pin_missing : String
pin_missing =
    "revalidation_pin_missing: integration-branch HEAD capture failed at validation dispatch time — refusing to promote without a verified pin"

abbrev pub head_moved : String → String → String
head_moved captured live =
    String.◌++◌ "integration branch HEAD moved after re-validation captured " (
      String.◌++◌ captured (
        String.◌++◌ " (live HEAD is now "
          (String.◌++◌ live ") — refusing to promote a moved HEAD")))

-- The live head is `undefined` or "" when unknown.
unfoldable pub check_head_pin : Option String → Option String → Verdict
check_head_pin none live = passes
check_head_pin (some pin) live = if str_eq pin "" then refuses pin_missing else elim live [
  | none ↦ passes
  | some head ↦
      if str_eq head ""
      then passes
      else if str_eq pin head
      then passes
      else refuses (head_moved pin head)
]

-- `pinFailureReason`
unfoldable pub pin_failure_reason : String → String
pin_failure_reason reason =
    if starts_with reason "revalidation_pin_missing"
    then "revalidation_pin_missing"
    else "validation_pin_mismatch"

-- `checkHeadPinForPromote`, at the n-th call of the hook.
unfoldable pub check_head_pin_for_promote :
    Option HeadReader → String → TaskGraph → Round → ℕ → Verdict
check_head_pin_for_promote hooks graph_id graph round n =
    check_head_pin round.revalidation_head
      (some (read_integration_head hooks graph_id graph.destination n))

-- `persistValidationDispatchHead`
unfoldable pub persist_validation_dispatch_head : Option String → Action Unit
persist_validation_dispatch_head none s = (return tt, s)
persist_validation_dispatch_head (some head) s = elim s.graph [
  | none ↦ (return tt, s)
  | some fresh ↦
      (return tt, record s { graph = some (record fresh { validation_dispatch_head = some head }) })
]

-- `checkValidationDispatchPin`
unfoldable pub check_validation_dispatch_pin :
    Option HeadReader → String → Option TaskGraph → ℕ → Verdict
check_validation_dispatch_pin hooks graph_id none n = passes
check_validation_dispatch_pin hooks graph_id (some graph) n = elim graph.validation_dispatch_head [
  | none ↦ passes
  | some pin ↦
      check_head_pin (some pin) (some (read_integration_head hooks graph_id graph.destination n))
]
