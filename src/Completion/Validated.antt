-- ===== src/Completion/Validated.antt =====
-- The resolution of a validated graph in src/task-graph.ts: when it promotes.
use the_bureau.Rework.{try_claim_resolution}
use the_bureau.Rework.Pin.{Verdict}
use the_bureau.Graph.Cancel.{is_terminal_graph, update_graph_status}
use the_bureau.Rework.Pin.{check_validation_dispatch_pin, passes, refuses}
use the_bureau.Yield.{before}
use the_bureau.Completion.{
  Wiring, attempt_of, first_failed, has_failed, resolve_claimed, resolve_passed, resolve,
}
use the_bureau.Graph.Store.{Store, emit}
use the_bureau.Graph.Store.Steady.{Steady, Steady-preorder, is_promotion, promotions}
use the_bureau.Completion.Promotion.{
  IsPromoted, promote_if_pod-outcome, resolve_failed-Steady, resolve_refused-Steady,
}
use the_bureau.Graph.Cancel.Verdicts.{update_graph_status-IsMarked}
use the_bureau.Graph.Types.{GraphStatus, TaskGraph, TaskNode, event, graph_validated}
use the_bureau.Prelude.{
  ◌==◌, Bool-cases, List, Option, Option-cases, String, [], any, arith, false, inl, inr, none, refl,
  some, true, ◌∙◌, ◌∷◌, ◌≡◌, ◌⊎◌, if◌then◌else◌,
}

-- The store is left without a promotion, or there is one and `C` holds.
abbrev pub Outcome : Type 0 → Store → Store → Type 0
Outcome C before after = Steady before after ⊎ (C × IsPromoted before after)

pub later : (C : Type 0) (s t u : Store) → Steady s t → Outcome C t u → Outcome C s u
later C s t u p (inl q) = inl (Steady-preorder.chain s t u p q)
later C s t u p (inr (c, q)) = inr (
  c,
  record {
    graph = q.graph;
    stored = q.stored;
    ended = q.ended;
    once = omega (arith, q.once, p.same_promotions);
    same_tasks = q.same_tasks ∙ p.same_tasks;
  },
)

pub given : (C D : Type 0) (s t : Store) → (C → D) → Outcome C s t → Outcome D s t
given C D s t f (inl q) = inl q
given C D s t f (inr (c, q)) = inr (f c, q)

first_failed-none :
    (graphs : String → Option TaskGraph) (ids : List String)
    → first_failed graphs ids ≡ none
    → any (λ id. has_failed (graphs id)) ids ≡ false
unfolding first_failed has_failed
first_failed-none graphs [] h = refl
first_failed-none graphs (id ∷ ids) h = go (graphs id) refl (first_failed-none graphs ids)
  where
    go :
        (o : Option TaskGraph)
        → graphs id ≡ o
        → (first_failed graphs ids ≡ none → any (λ id. has_failed (graphs id)) ids ≡ false)
        → any (λ id. has_failed (graphs id)) (id ∷ ids) ≡ false
    go none e rest = rw e (rest (rw (e, first_failed) at h))
    go (some child) e rest = elim (Bool-cases (has_failed (some child))) [
      | inl bad ↦ absurd (cc (rw (e, first_failed, bad) at h))
      | inr good ↦ rw (e, good) (rest (rw (e, first_failed, good) at h))
    ]

module _ (w : Wiring) where
  pub resolve_passed-outcome :
      (g now : TaskGraph) (tasks : List TaskNode) (v : Verdict) (s : Store)
      → s.graph ≡ some now
      → Outcome ((v ≡ passes) × (g.is_rework_fix_child ≡ false)) s (resolve_passed w g tasks v s).1
  unfolding resolve_passed emit promotions is_promotion is_terminal_graph
  resolve_passed-outcome g now tasks (refuses reason) s has =
      inl ((resolve_refused-Steady w g tasks reason).along s)
  resolve_passed-outcome g now tasks passes s has =
      let m = update_graph_status-IsMarked w.env GraphStatus.validated none none s now has in
      let s2 = (update_graph_status w.env GraphStatus.validated none none s).1 in
      let s3 : Store = record s2 { effects = event graph_validated none ∷ s2.effects } in
      let to_s3 : Steady s s3 = record {
        same_tasks = m.steady.same_tasks;
        stays = m.steady.stays;
        same_promotions = omega (arith, m.steady.same_promotions);
      } in
      let last = promote_if_pod-outcome w g m.record_now tasks s3 m.stored (rw (m.marked) refl) in
      rw (m.returns) (later _ s s3 _ to_s3 (given _ _ s3 _ (λ own. (refl, own)) last))

  resolve_claimed-outcome :
      (g : TaskGraph) (tasks : List TaskNode) (s : Store)
      → s.graph ≡ some g
      → Outcome
          ((any (λ id. has_failed (w.graphs id)) g.child_graph_ids ≡ false)
            × (check_validation_dispatch_pin w.hooks s.graph_id (some g) 0 ≡ passes)
            × (g.is_rework_fix_child ≡ false))
          s
          (resolve_claimed w g tasks s).1
  unfolding resolve_claimed
  resolve_claimed-outcome g tasks s has =
      elim (Option-cases (first_failed w.graphs g.child_graph_ids)) [
        | inl green ↦
            rw (green, resolve_claimed)
              (given _ _ s _ (λ c. (first_failed-none w.graphs g.child_graph_ids green, c.0, c.1))
                (resolve_passed-outcome g g tasks
                  (check_validation_dispatch_pin w.hooks s.graph_id (some g) 0) s has))
        | inr (reason, bad) ↦
            rw (bad, resolve_claimed) (inl ((resolve_failed-Steady w reason).along s))
      ]

  -- What the gates behind the claim let through.
  pub record IsGreen (g : TaskGraph) (s : Store) : Type 0 where
    pub green : any (λ id. has_failed (w.graphs id)) g.child_graph_ids ≡ false
    pub unclaimed : s.completion_locks (attempt_of g) ≡ false
    pub pinned : check_validation_dispatch_pin w.hooks s.graph_id (some g) 0 ≡ passes
    pub own : g.is_rework_fix_child ≡ false

  pub resolve-outcome :
      (g : TaskGraph) (tasks : List TaskNode) (s : Store)
      → s.graph ≡ some g
      → Outcome (IsGreen g s) s (resolve w g tasks s).1
  unfolding resolve try_claim_resolution
  resolve-outcome g tasks s has = elim (Bool-cases (s.completion_locks (attempt_of g))) [
    | inl taken ↦ inl (rw (taken, resolve) (Steady-preorder.still s))
    | inr open_lock ↦
        let s1 : Store = record s {
          completion_locks = λ n. if n == attempt_of g then true else s.completion_locks n;
        } in
        let to_s1 : Steady s s1 = record {
          same_tasks = refl;
          stays = λ h. h;
          same_promotions = refl;
        } in
        rw (open_lock, resolve)
          (later _ s s1 _ to_s1 (
            given _ (IsGreen g s) s1 _
              (λ c. record { green = c.0; unclaimed = open_lock; pinned = c.1; own = c.2 })
              (resolve_claimed-outcome g tasks s1 has)))
  ]
