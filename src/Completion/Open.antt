-- ===== src/Completion/Open.antt =====
-- The gates of a graph in src/task-graph.ts, behind those of its tasks.
use mathlib.Core.Path.{subst}
use the_bureau.Completion.{is_validating}
use the_bureau.Prelude.{true, false}
use the_bureau.Completion.Plain.{complete-outcome}
use the_bureau.Rework.Pin.{check_validation_dispatch_pin, passes}
use the_bureau.Completion.{
  Wiring, attempt_of, check_gates, check_validating, gate_command, gate_criteria, has_failed,
  has_level, is_awaited, is_gateless, is_inline, passes_inline,
}
use the_bureau.Graph.Types.{TaskGraph, TaskNode}
use the_bureau.Graph.Store.{Store}
use the_bureau.Graph.Store.Steady.{Steady-preorder}
use the_bureau.Completion.Validated.{IsGreen, Outcome, given, resolve-outcome}
use the_bureau.Prelude.{
  ◌&&◌, ◌++◌, ◌==◌, Bool, Bool-cases, List, String, [], any, arith, contains, if◌then◌else◌, inl,
  inr, length, not, refl, some, str_eq, sym, ◌||◌, ◌∙◌, ◌∷◌, ◌≡◌,
}
use the_bureau.Completion.Criteria.{IsInline, check_criteria-outcome, fail_gateless-Steady}

-- The gate that a graph has passed where a check of it promotes.
pub data Gate (w : Wiring) (g : TaskGraph) (s : Store) : Type 0 where
  -- its validation children are over and none of them has failed
  children :
      is_validating g.status ≡ true
      → any (λ id. is_awaited (w.graphs id)) g.child_graph_ids ≡ false
      → any (λ id. has_failed (w.graphs id)) g.child_graph_ids ≡ false
      → check_validation_dispatch_pin w.hooks s.graph_id (some g) 0 ≡ passes
      → Gate w g s
  -- it has no level that needs a command, and its criteria need no child and have passed
  inline :
      is_validating g.status ≡ false
      → has_level "unit" g ≡ false
      → has_level "integration" g ≡ false
      → contains "agent" g.criteria ≡ false
      → contains "exec" g.criteria ≡ false
      → w.inline_passes ≡ true
      → check_validation_dispatch_pin w.hooks s.graph_id (some g) 0 ≡ passes
      → Gate w g s
  -- it has no such level and no criteria, and its children are over
  plain :
      is_validating g.status ≡ false
      → has_level "unit" g ≡ false
      → has_level "integration" g ≡ false
      → g.criteria ≡ []
      → any (λ id. is_awaited (w.graphs id)) g.child_graph_ids ≡ false
      → Gate w g s

-- What the gates behind the tasks' let through.
pub record IsOpen (w : Wiring) (g : TaskGraph) (s : Store) : Type 0 where
  pub gate : Gate w g s
  pub unclaimed : s.completion_locks (attempt_of g) ≡ false
  pub own : g.is_rework_fix_child ≡ false

no_criteria : (cs : List String) → (length cs == 0) ≡ true → cs ≡ []
no_criteria [] h = refl
no_criteria (c ∷ cs) h = absurd (ground (arith, h))

-- Where no criterion is for a pod, none has been added.
gate_criteria-own :
    (g : TaskGraph) → contains "exec" (gate_criteria g) ≡ false → gate_criteria g ≡ g.criteria
unfolding gate_criteria contains
gate_criteria-own g h = elim (Bool-cases (str_eq (gate_command g) "")) [
  | inl silent ↦ rw silent refl
  | inr command ↦ elim (Bool-cases (contains "exec" g.criteria)) [
    | inl has_exec ↦ rw (command, has_exec) refl
    | inr no_exec ↦
        let more : contains "exec" (g.criteria ++ "exec" ∷ []) ≡ false =
          rw (command, no_exec, gate_criteria) at h in
        absurd (ends_in_exec g.criteria more)
  ]
]
  where
    ends_in_exec : (cs : List String) → contains "exec" (cs ++ "exec" ∷ []) ≡ false → ⊥
    ends_in_exec [] e = cc e
    ends_in_exec (c ∷ cs) e = ends_in_exec cs (ground (arith, e))

first-is_inline :
    (cs : List String)
    → (length cs == 0) ≡ false
    → contains "agent" cs ≡ false
    → contains "exec" cs ≡ false
    → any is_inline cs ≡ true
unfolding contains is_inline
first-is_inline [] h a e = absurd (ground (arith, h))
first-is_inline (c ∷ cs) h a e = ground (arith, a, e)

module _ (w : Wiring) where
  check_validating-outcome :
      (g : TaskGraph) (tasks : List TaskNode) (s : Store)
      → s.graph ≡ some g
      → is_validating g.status ≡ true
      → Outcome (IsOpen w g s) s (check_validating w g tasks s).1
  unfolding check_validating
  check_validating-outcome g tasks s has validating =
      elim (Bool-cases (length g.child_graph_ids == 0)) [
        | inl childless ↦ inl (rw childless (Steady-preorder.still s))
        | inr more ↦ elim (Bool-cases (any (λ id. is_awaited (w.graphs id)) g.child_graph_ids)) [
          | inl awaited ↦ inl (rw (more, awaited) (Steady-preorder.still s))
          | inr over ↦
              rw (more, over)
                (given (IsGreen w g s) (IsOpen w g s) s _
                  (λ c. record {
                    gate = children validating over c.green c.pinned;
                    unclaimed = c.unclaimed;
                    own = c.own;
                  })
                  (resolve-outcome w g tasks s has))
        ]
      ]

  no_level :
      (g : TaskGraph)
      → is_gateless g ≡ false
      → contains "exec" (gate_criteria g) ≡ false
      → (has_level "unit" g ≡ false) × (has_level "integration" g ≡ false)
  unfolding is_gateless
  no_level g gated no_exec = go (has_level "unit" g) (has_level "integration" g) gated no_exec
    where
      go :
          (u i : Bool)
          → ((u || i) && not (contains "exec" (gate_criteria g))) ≡ false
          → contains "exec" (gate_criteria g) ≡ false
          → (u ≡ false) × (i ≡ false)
      go u i h e = (ground (arith, h, e), ground (arith, h, e))

  inline-IsOpen :
      (g : TaskGraph) (s : Store)
      → is_validating g.status ≡ false
      → is_gateless g ≡ false
      → (length (gate_criteria g) == 0) ≡ false
      → IsInline w g s
      → IsOpen w g s
  unfolding passes_inline
  inline-IsOpen g s other gated some_gate c =
      let levels = no_level g gated c.no_exec in
      let same_list = gate_criteria-own g c.no_exec in
      let some_inline = first-is_inline (gate_criteria g) some_gate c.no_agent c.no_exec in
      record {
        gate =
            inline other levels.0 levels.1
              (subst (λ cs. contains "agent" cs ≡ false) same_list c.no_agent)
              (subst (λ cs. contains "exec" cs ≡ false) same_list c.no_exec)
              (rw some_inline at c.passed) c.pinned;
        unclaimed = c.unclaimed;
        own = c.own;
      }

  check_gates-outcome :
      (g : TaskGraph) (tasks : List TaskNode) (s : Store)
      → s.graph ≡ some g
      → is_validating g.status ≡ false
      → Outcome (IsOpen w g s) s (check_gates w g tasks s).1
  unfolding check_gates contains
  check_gates-outcome g tasks s has other = elim (Bool-cases (is_gateless g)) [
    | inl gateless ↦ rw (gateless, check_gates) (inl ((fail_gateless-Steady w g).along s))
    | inr gated ↦ elim (Bool-cases (length (gate_criteria g) == 0)) [
      | inl no_gate ↦
          let none_left = no_criteria (gate_criteria g) no_gate in
          let no_exec : contains "exec" (gate_criteria g) ≡ false = rw none_left refl in
          let levels = no_level g gated no_exec in
          rw (gated, no_gate, check_gates)
            (given _ (IsOpen w g s) s _
              (λ c. record {
                gate =
                    plain other levels.0 levels.1 (sym (gate_criteria-own g no_exec) ∙ none_left)
                      c.0;
                unclaimed = c.1;
                own = c.2;
              })
              (complete-outcome w g tasks s g has))
      | inr some_gate ↦
          rw (gated, some_gate, check_gates)
            (given (IsInline w g s) (IsOpen w g s) s _
              (λ c. inline-IsOpen g s other gated some_gate c)
              (check_criteria-outcome w g tasks s has))
    ]
  ]

  pub check_graph-outcome :
      (g : TaskGraph) (tasks : List TaskNode) (s : Store)
      → s.graph ≡ some g
      → Outcome
          (IsOpen w g s)
          s
          ((if is_validating g.status then check_validating w g tasks else check_gates w g tasks)
            s).1
  check_graph-outcome g tasks s has = elim (Bool-cases (is_validating g.status)) [
    | inl validating ↦ rw validating (check_validating-outcome g tasks s has validating)
    | inr other ↦ rw other (check_gates-outcome g tasks s has other)
  ]
