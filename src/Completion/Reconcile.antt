-- ===== src/Completion/Reconcile.antt =====
-- The reconciler of a graph under rework (src/task-graph.ts: resumeReworkRound). The dispatch of
-- the fix child and of the validation children is a later step, `dispatch_fix` and
-- `revalidating`; what the guard on the fix reads, the criteria and the diff, is a parameter.
pub mod Laws
pub mod Steps
pub mod Scanned
use the_bureau.Rework.Pin.{Verdict}
use the_bureau.Rework.Pin.{
  capture_integration_head_for_pin, check_head_pin_for_promote, passes, pin_failure_reason,
  read_integration_head, refuses,
}
use the_bureau.Graph.Types.{GraphStatus, Round, TaskGraph, merged, validated}
use the_bureau.Rework.{
  Entered, enter_rework_round, handed_over, refused, resolve_rework_terminal, rework_eligibility,
  try_claim_resolution,
}
use the_bureau.Completion.{Completion, Wiring, failure_of, is_reworking, resolve_passed, settled}
use the_bureau.Prelude.{
  ◌&&◌, ◌==◌, Bool, List, Option, String, [], if◌then◌else◌, false, get_or, is_some, length, none,
  not, some, str_eq, true, ℕ, ◌∷◌,
}
use the_bureau.Graph.Store.{◌>>=◌, ◌>>◌, Action, Store, all_tasks, get, modify, pure}
use the_bureau.FixIntegrity.{evaluate_fix_integrity, DiffShapeInput, ExecCriterionRef, Patterns}

-- What a run of the reconciler reads besides the wiring: the criteria for the pods, the answer of
-- SET with NX for the revalidation, the children that it dispatches, and what the guard reads.
pub record Reconciler : Type 0 where
  pub wiring : Wiring
  pub exec_criteria : List ExecCriterionRef
  pub claims_revalidation : Bool
  pub new_children : List String
  pub patterns : Patterns
  pub failed_coverage : Option ExecCriterionRef
  pub diff : Option DiffShapeInput

pub data Reconciled : Type 0 where
  on_hold dispatch_fix revalidating advanced : Reconciled
  ended_as : Completion → Reconciled

-- CHILD_TERMINAL_STATUSES, CHILD_FAILED_STATUSES
unfoldable pub child_is_over : GraphStatus → Bool
child_is_over GraphStatus.completed = true
child_is_over GraphStatus.validated = true
child_is_over GraphStatus.failed = true
child_is_over GraphStatus.merged = true
child_is_over GraphStatus.validation_failed = true
child_is_over GraphStatus.canceled = true
child_is_over _ = false

unfoldable pub child_has_failed : GraphStatus → Bool
child_has_failed GraphStatus.failed = true
child_has_failed GraphStatus.validation_failed = true
child_has_failed GraphStatus.canceled = true
child_has_failed _ = false

unfoldable pub is_attempt : ℕ → Option ℕ → Bool
is_attempt n none = false
is_attempt n (some m) = m == n

-- The first child that is a fix child of the attempt.
unfoldable pub fix_child : (String → Option TaskGraph) → ℕ → List String → Option TaskGraph
fix_child graphs attempt [] = none
fix_child graphs attempt (id ∷ ids) = elim (graphs id) [
  | none ↦ fix_child graphs attempt ids
  | some c ↦
      if c.is_rework_fix_child && is_attempt attempt c.attempt
      then some c
      else fix_child graphs attempt ids
]

pub record Scan : Type 0 where
  pub all_passed : Bool
  pub any_running : Bool
  pub reason : Option String

-- A reason is kept once it is there and not empty.
unfoldable pub fail_with : Option String → Scan → Scan
fail_with reason scan = record scan {
  all_passed = false;
  reason = if str_eq (get_or scan.reason "") "" then reason else scan.reason;
}

unfoldable pub scan_child : Option TaskGraph → Scan → Scan
scan_child none scan = fail_with (some "exec_verdict_lost") scan
scan_child (some c) scan =
    if not (child_is_over c.status)
    then record scan { any_running = true }
    else if child_has_failed c.status
    then fail_with c.failure_reason scan
    else scan

unfoldable pub scan_children : (String → Option TaskGraph) → List String → Scan → Scan
scan_children graphs [] scan = scan
scan_children graphs (id ∷ ids) scan = scan_children graphs ids (scan_child (graphs id) scan)

abbrev pub empty_scan : Scan
empty_scan = record { all_passed = true; any_running = false; reason = none }

-- `head === round.startHead`, where the start head is known
unfoldable pub is_empty_fix : String → Option String → Bool
is_empty_fix start_head none = false
is_empty_fix start_head (some head) = not (str_eq start_head "") && str_eq head start_head

module _ (r : Reconciler) where
  unfoldable pub end_round : Round → Action Reconciled
  end_round round = do resolve_rework_terminal r.wiring.env round none none; pure (ended_as settled)

  unfoldable pub claim_end : Round → Action Reconciled
  claim_end round = do
    claimed ← try_claim_resolution round.attempt
    if claimed then end_round round else pure on_hold

  -- The round as it is after the dispatch of the validation children.
  unfoldable pub record_children : Option String → Store → Store
  record_children head s = elim s.graph [
    | none ↦ s
    | some g ↦ elim g.current_round [
      | none ↦ s
      | some round ↦ record s {
        graph = some (record g {
          current_round =
              some
                (record round { validation_child_ids = r.new_children; revalidation_head = head });
        });
      }
    ]
  ]

  -- Step 2: the fix child is over, and nothing has been validated again.
  unfoldable pub before_revalidation : TaskGraph → Round → Bool → Action Reconciled
  before_revalidation g round fix_has_failed s =
      let head = capture_integration_head_for_pin r.wiring.hooks s.graph_id g.destination 0 in
      (if fix_has_failed
          then claim_end round
          else if is_empty_fix round.start_head head
          then claim_end round
          else if length r.exec_criteria == 0
          then claim_end round
          else if not r.claims_revalidation
          then pure on_hold
          else (modify (record_children head) >> pure revalidating))
        s

  unfoldable pub promote_round : TaskGraph → Round → Verdict → Action Reconciled
  promote_round g round (refuses reason) = do
    s ← get
    resolve_rework_terminal r.wiring.env round (some (failure_of r.wiring s.graph_id))
        (some (pin_failure_reason reason))
    pure (ended_as settled)
  promote_round g round passes = do
    s ← get
    next ← resolve_passed r.wiring g (all_tasks s) passes
    pure (ended_as next)

  unfoldable pub advance_entered : Round → Entered → Action Reconciled
  advance_entered round handed_over = pure advanced
  advance_entered round refused = end_round round

  -- The next round, if the graph may have one; its failure is that of this round.
  unfoldable pub advance : TaskGraph → Round → Option String → Action Reconciled
  advance g round reason s = elim (rework_eligibility r.wiring.graphs g reason) [
    | none ↦ end_round round s
    | some e ↦
        (do
          entered ←
              enter_rework_round r.wiring.env
                (read_integration_head r.wiring.hooks s.graph_id g.destination 0) g
                (some (failure_of r.wiring s.graph_id)) (get_or reason "") e.fix_role e.max_attempts
          advance_entered round entered)
          s
  ]

  unfoldable pub resolve_round : TaskGraph → Round → Scan → Action Reconciled
  resolve_round g round scan s =
      (if scan.all_passed
          then (if is_some
                (evaluate_fix_integrity r.patterns r.failed_coverage r.exec_criteria r.diff)
              then end_round round
              else promote_round g round
                  (check_head_pin_for_promote r.wiring.hooks s.graph_id g round 0))
          else advance g round scan.reason)
        s

  -- Steps 3 and 4: the validation children of the round.
  unfoldable pub after_revalidation : TaskGraph → Round → Action Reconciled
  after_revalidation g round =
      let scan = scan_children r.wiring.graphs round.validation_child_ids empty_scan in
      if scan.any_running then pure on_hold else (do
        claimed ← try_claim_resolution round.attempt
        if claimed then resolve_round g round scan else pure on_hold)

  unfoldable pub reconcile_round : TaskGraph → Round → Action Reconciled
  reconcile_round g round = elim (fix_child r.wiring.graphs round.attempt g.child_graph_ids) [
    | none ↦ pure dispatch_fix
    | some child ↦
        if not (child_is_over child.status)
        then pure on_hold
        else if length round.validation_child_ids == 0
        then before_revalidation g round (child_has_failed child.status)
        else after_revalidation g round
  ]

  unfoldable pub resume_rework_round : Action Reconciled
  resume_rework_round s = elim s.graph [
    | none ↦ pure on_hold s
    | some g ↦
        (if not (is_reworking g.status) then pure on_hold else elim g.current_round [
          | none ↦ pure on_hold
          | some round ↦ reconcile_round g round
        ])
          s
  ]
