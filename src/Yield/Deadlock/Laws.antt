-- ===== src/Yield/Deadlock/Laws.antt =====
-- The verdict of YieldManager.detectDeadlock in src/workspace/yield.ts.
use the_bureau.Graph.Types.{YieldContext}
use the_bureau.Yield.Deadlock.{
  Search, clear, cyclic, dfs_unvisited, lost, dfs, Deadlock, all_nodes, answer_of, detect_deadlock,
  waiting_tasks, waits_for,
}
use the_bureau.Yield.Deadlock.Depth.{
  Explored, Fits, IsChain, search_each-Fits, IsChain-snoc, slice_from-IsCycle, IsCycle,
}
use the_bureau.Prelude.{
  ◌++◌, ◌<◌, All-from, Bool-cases, List, String, [], arith, contains, contains-append, eq_iff,
  false, inl, inr, left, left-snoc, str_eq_refl, suc, true, zero, ℕ, ◌∷◌, ◌≡◌, All-at,
  contains-distinct, left_bound, length, map, ordered-ranks, rank_in, refl, some, sym, ◌∙◌, ◌==◌,
  Bool, All, distinct,
}

-- A node is pushed, its neighbours are searched, and it is finished.
pushed :
    (edges : String → List String) (path before visited : List String) (node : String)
    → contains node path ≡ false
    → contains node visited ≡ false
    → Explored edges path before visited
    → Explored edges (path ++ node ∷ []) before (node ∷ visited)
unfolding contains
pushed edges path before visited node p v e = record {
  ordered = e.ordered;
  apart = λ x h.
      ground
        (arith, h, e.apart x, contains-append x path (node ∷ []), eq_iff node x, e.same node, v, p);
  same = λ x. ground (arith, e.same x, contains-append x path (node ∷ []));
}

popped :
    (edges : String → List String) (path before : List String) (node : String)
    → contains node path ≡ false
    → (r : Search) → Fits edges (path ++ node ∷ []) before (edges node) r
    → Fits edges path before (node ∷ []) r
unfolding contains
popped edges path before node p (cyclic c) f = f
popped edges path before node p lost f = f
popped edges path before node p (clear v) f = record {
  done_nodes = node ∷ f.done_nodes;
  explored = record {
    ordered = (
      ground
          (arith, f.explored.apart node, contains-append node path (node ∷ []), str_eq_refl node),
      f.reached,
      f.explored.ordered,
    );
    apart = λ x h.
        ground (arith, h, f.explored.apart x, contains-append x path (node ∷ []), eq_iff node x, p);
    same = λ x. ground (arith, f.explored.same x, contains-append x path (node ∷ []));
  };
  kept = λ x h. ground (arith, f.kept x h);
  reached = (ground (arith, str_eq_refl node), tt);
}

module _ (edges : String → List String) (nodes : List String)
    (known : (x d : String) → contains d (edges x) ≡ true → contains d nodes ≡ true) where
  -- With fuel for the nodes off the path, a call finds a cycle or finishes its node.
  dfs-Fits :
      (fuel : ℕ) (path before visited : List String) (node : String)
      → left path nodes < fuel
      → contains node nodes ≡ true
      → IsChain edges (path ++ node ∷ [])
      → Explored edges path before visited
      → Fits edges path before (node ∷ []) (dfs fuel edges path visited node)
  unfolding dfs
  dfs-Fits zero path before visited node b k c e = absurd (omega (arith, b))
  dfs-Fits (suc fuel) path before visited node b k c e = elim (Bool-cases (contains node path)) [
    | inl on ↦ rw (on, dfs) (slice_from-IsCycle edges path node on c)
    | inr off ↦ elim (Bool-cases (contains node visited)) [
      | inl seen ↦
          rw (off, seen, dfs)
            (record {
              done_nodes = before;
              explored = e;
              kept = λ x h. h;
              reached = (ground (arith, e.same node, seen, off), tt);
            })
      | inr new ↦
          rw (off, new, dfs)
            (popped edges path before node off _ (
              search_each-Fits edges (path ++ node ∷ [])
                (λ v n. dfs fuel edges (path ++ node ∷ []) v n) (edges node)
                (All-from _ (edges node) (λ m h before' v e'.
                  dfs-Fits fuel (path ++ node ∷ []) before' v m
                    (omega (arith, b, left-snoc node path nodes off k)) (known node m h)
                    (IsChain-snoc edges path node m c h) e'))
                before (node ∷ visited) (pushed edges path before visited node off new e)))
    ]
  ]

  dfs_unvisited-Fits :
      (fuel : ℕ) (before visited : List String) (node : String)
      → left [] nodes < fuel
      → contains node nodes ≡ true
      → Explored edges [] before visited
      → Fits edges [] before (node ∷ []) (dfs_unvisited fuel edges visited node)
  unfolding dfs_unvisited contains
  dfs_unvisited-Fits fuel before visited node b k e = elim (Bool-cases (contains node visited)) [
    | inl seen ↦
        rw (seen, dfs_unvisited)
          (record {
            done_nodes = before;
            explored = e;
            kept = λ x h. h;
            reached = (ground (arith, e.same node, seen), tt);
          })
    | inr new ↦ rw (new, dfs_unvisited) (dfs-Fits fuel [] before visited node b k (tt, tt) e)
  ]

waits_for-known :
    (ys : List YieldContext) (n d : String)
    → contains d (waits_for ys n) ≡ true
    → contains d (all_nodes ys) ≡ true
unfolding waits_for all_nodes contains
waits_for-known [] n d h = cc
waits_for-known (y ∷ ys) n d h =
    ground (arith, h, contains-append d y.agents (all_nodes ys), waits_for-known ys n d)

task-known :
    (ys : List YieldContext) (n : String)
    → contains n (map (λ y. y.task_id) ys) ≡ true
    → contains n (all_nodes ys) ≡ true
unfolding contains all_nodes
task-known [] n h = cc
task-known (y ∷ ys) n h =
    ground (arith, h, contains-append n y.agents (all_nodes ys), task-known ys n)

-- A rank that falls from every task to all that it yielded to.
pub IsRanking : List YieldContext → (String → ℕ) → Type 0
IsRanking ys rank = All (λ n. All (λ m. rank m < rank n) (waits_for ys n)) (waiting_tasks ys)

-- The verdict: a cycle of tasks, each of which yielded to the next one, or a ranking.
abbrev pub IsVerdict : List YieldContext → Bool → List String → Type 0
IsVerdict ys true c = IsCycle (waits_for ys) c
IsVerdict ys false c = (c ≡ []) × ((rank : String → ℕ) × IsRanking ys rank)

answer_of-IsVerdict :
    (ys : List YieldContext) (r : Search)
    → Fits (waits_for ys) [] [] (waiting_tasks ys) r
    → (d : Deadlock) × (answer_of r ≡ some d) × IsVerdict ys d.deadlocked d.cycle
unfolding answer_of IsRanking
answer_of-IsVerdict ys (cyclic c) f = (record { deadlocked = true; cycle = c }, refl, f)
answer_of-IsVerdict ys lost f = absurd f
answer_of-IsVerdict ys (clear v) f = (
  record { deadlocked = false; cycle = [] },
  refl,
  (
    refl,
    (
      rank_in f.done_nodes,
      All-from _ (waiting_tasks ys) (λ n k. All-from _ (waits_for ys n) (λ m e.
          ordered-ranks (waits_for ys) f.done_nodes n m f.explored.ordered
            (All-at (λ a. contains a f.done_nodes ≡ true) n (waiting_tasks ys) f.reached k) e)),
    ),
  ),
)

-- The search for a deadlock always ends with a verdict. If the verdict is a deadlock, the answer is
-- a cycle of at least one step in which each task yielded to the next one. If it is none, the
-- answer is empty and the tasks can be ranked so that every task ranks above all that it yielded
-- to: there is no such cycle.
pub detect_deadlock_decides :
    (ys : List YieldContext)
    → (d : Deadlock) × (detect_deadlock ys ≡ some d) × IsVerdict ys d.deadlocked d.cycle
unfolding detect_deadlock contains waiting_tasks waits_for IsRanking distinct
detect_deadlock_decides [] = (record { deadlocked = false; cycle = [] }, refl, (refl, (λ n. 0, tt)))
detect_deadlock_decides (y ∷ ys) =
    let all_ys = y ∷ ys in
    let some_yield : (length all_ys == 0) ≡ false = ground arith in
    rw (some_yield, detect_deadlock)
      (answer_of-IsVerdict all_ys _ (
        search_each-Fits (waits_for all_ys) []
          (dfs_unvisited (suc (length (all_nodes all_ys))) (waits_for all_ys))
          (waiting_tasks all_ys)
          (All-from _ (waiting_tasks all_ys) (λ n h before v e.
            dfs_unvisited-Fits (waits_for all_ys) (all_nodes all_ys) (waits_for-known all_ys)
              (suc (length (all_nodes all_ys))) before v n
              (omega (arith, left_bound [] (all_nodes all_ys)))
              (task-known all_ys n (sym (contains-distinct n (map (λ y. y.task_id) all_ys)) ∙ h))
              e))
          [] [] (record { ordered = tt; apart = λ x h. refl; same = λ x. refl })))
