-- ===== src/Rework/Entry.antt =====
-- What the entry of a round and the claim of a resolution in src/task-graph.ts leave alone.
use the_bureau.Graph.Store.{call}
use the_bureau.Graph.Env.{Env}
use the_bureau.Rework.{
  claim_round, record_rejection, try_claim_resolution, win_round, write_round, can_rework,
  enter_rework_round, next_attempt, refused,
}
use the_bureau.Graph.Types.{TaskGraph, ValidationFailure, rework_exhausted}
use the_bureau.Graph.Store.Obeys.{Obeys, if-Obeys}
use the_bureau.Graph.Store.Steady.{
  IsCalm-call, Steady, Steady-preorder, is_promotion, Steady-bind, Steady-pure, promotions,
}
use the_bureau.Prelude.{Bool-cases, Option, String, inl, inr, refl, ℕ, not, arith}

pub try_claim_resolution-Steady : (attempt : ℕ) → Obeys Steady (try_claim_resolution attempt)
unfolding try_claim_resolution
try_claim_resolution-Steady attempt = record {
  along = λ s. elim (Bool-cases (s.completion_locks attempt)) [
    | inl taken ↦ rw (taken, try_claim_resolution) (Steady-preorder.still s)
    | inr free_yet ↦
        rw (free_yet, try_claim_resolution)
          (record { same_tasks = refl; stays = λ h. h; same_promotions = refl })
  ];
}

module _ (env : Env) where
  win_round-Steady :
      (attempt : ℕ) (start_head : String) (graph : TaskGraph) (failure : Option ValidationFailure)
      (reason : String)
      → Obeys Steady (win_round env attempt start_head graph failure reason)
  unfolding win_round claim_round record_rejection write_round is_promotion promotions call
  win_round-Steady attempt start_head graph failure reason = record {
    along = λ s. elim (Bool-cases env.has_registry) [
      | inl here ↦
          rw here (record { same_tasks = refl; stays = λ h. refl; same_promotions = omega arith })
      | inr missing ↦
          rw missing (record { same_tasks = refl; stays = λ h. refl; same_promotions = refl })
    ];
  }

  pub enter_rework_round-Steady :
      (start_head : String) (graph : TaskGraph) (failure : Option ValidationFailure)
      (reason fix_role : String) (max_attempts : ℕ)
      → Obeys Steady (enter_rework_round env start_head graph failure reason fix_role max_attempts)
  unfolding enter_rework_round is_promotion
  enter_rework_round-Steady start_head graph failure reason fix_role m = record {
    along = λ s.
        (if-Obeys Steady (not (can_rework m s)) _ _
            (Steady-bind _ _ (IsCalm-call (rework_exhausted fix_role) refl).steady
              λ _. Steady-pure refused)
            (if-Obeys Steady (s.rework_claims (next_attempt graph)) _ _ (Steady-pure refused)
              (win_round-Steady (next_attempt graph) start_head graph failure reason))).along
          s;
  }
