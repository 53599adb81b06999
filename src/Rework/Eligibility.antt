-- ===== src/Rework/Eligibility.antt =====
-- Which graphs may enter the auto-rework loop of src/task-graph.ts.
use the_bureau.Prelude.{
  Option, Option-cases, String, arith, contains, false, inl, inr, some, true, ℕ, ◌≡◌, ◌≤◌,
  Bool-cases, Bool, if◌then◌else◌, ltb, min, none, not,
}
use the_bureau.Graph.Types.{AutoRework, TaskGraph}
use the_bureau.Rework.{
  Eligible, check_budget, fixable_reasons, get_graph_depth, rework_eligibility, max_depth,
}

-- What the tests of eligibility leave through.
pub record IsFit (graphs : String → Option TaskGraph) (g : TaskGraph) (reason : String)
    (e : Eligible) : Type 0 where
  pub auto : AutoRework
  pub asked : g.auto_rework ≡ some auto
  pub no_fix_child : g.is_rework_fix_child ≡ false
  pub no_retro : g.self_improve ≡ false
  pub fixable : contains reason fixable_reasons ≡ true
  pub shallow : get_graph_depth graphs g.id ≤ 3
  pub bounded : (1 ≤ e.max_attempts) × (e.max_attempts ≤ 3) × (e.max_attempts ≤ auto.max_attempts)

budget_tests :
    (m depth : ℕ) (fixable : Bool) (role : String) (e : Eligible)
    → (if ltb m 1
        then none
        else if not fixable
        then none
        else if ltb max_depth depth
        then none
        else some (record { max_attempts = m; fix_role = role }))
      ≡ some e
    → (fixable ≡ true) × (depth ≤ 3) × (1 ≤ m) × (e.max_attempts ≡ m)
budget_tests m depth false role e h = ground (arith, h)
budget_tests m depth true role e h = ground (arith, h)

-- A graph that may be reworked asked for it, is neither a fix child nor a self-improvement graph,
-- lies at depth 3 at most, failed for a fixable reason, and gets a budget of between one and
-- three attempts and no more than it asked for.
pub rework_eligibility_fits :
    (graphs : String → Option TaskGraph) (g : TaskGraph) (reason : String) (e : Eligible)
    → rework_eligibility graphs g (some reason) ≡ some e
    → IsFit graphs g reason e
unfolding rework_eligibility check_budget
rework_eligibility_fits graphs g reason e h = elim (Option-cases g.auto_rework) [
  | inl missing ↦ absurd (cc (rw missing at h))
  | inr (auto, given) ↦ elim (Bool-cases g.is_rework_fix_child) [
    | inl child ↦ absurd (cc (rw (given, child) at h))
    | inr no_child ↦ elim (Bool-cases g.self_improve) [
      | inl retro ↦ absurd (cc (rw (given, no_child, retro) at h))
      | inr no_retro ↦
          let t =
            budget_tests (min auto.max_attempts 3) (get_graph_depth graphs g.id)
              (contains reason fixable_reasons) _ e (rw (given, no_child, no_retro) at h) in
          record {
            auto = auto;
            asked = given;
            no_fix_child = no_child;
            no_retro = no_retro;
            fixable = t.0;
            shallow = t.1;
            bounded = omega (arith, t);
          }
    ]
  ]
]
