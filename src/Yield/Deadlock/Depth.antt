-- ===== src/Yield/Deadlock/Depth.antt =====
-- What the depth-first search of YieldManager.detectDeadlock in src/workspace/yield.ts finds.
use the_bureau.Yield.Deadlock.{Search, clear, cyclic, lost, search_each, slice_from}
use the_bureau.Prelude.{
  ◌++◌, Bool-cases, IsOrdered, List, String, [], ap, arith, contains, eq_iff, false, inl, inr,
  str_eq, true, ◌||◌, ◌∷◌, ◌≡◌, All,
}

abbrev pub Leads : (String → List String) → String → List String → Type 0
Leads edges x [] = Unit
Leads edges x (y ∷ ys) = contains y (edges x) ≡ true

-- Each node of the list leads to the next one.
abbrev pub IsChain : (String → List String) → List String → Type 0
IsChain edges [] = Unit
IsChain edges (x ∷ xs) = Leads edges x xs × IsChain edges xs

-- A chain of at least one step from a node to itself.
pub record IsCycle (edges : String → List String) (c : List String) : Type 0 where
  pub node : String
  pub between : List String
  pub closed : c ≡ node ∷ between ++ node ∷ []
  pub chain : IsChain edges c

pub IsChain-snoc :
    (edges : String → List String) (path : List String) (n m : String)
    → IsChain edges (path ++ n ∷ [])
    → contains m (edges n) ≡ true
    → IsChain edges ((path ++ n ∷ []) ++ m ∷ [])
IsChain-snoc edges [] n m h e = (e, (tt, tt))
IsChain-snoc edges (x ∷ []) n m h e = (h.0, (e, (tt, tt)))
IsChain-snoc edges (x ∷ y ∷ path) n m h e = (h.0, IsChain-snoc edges (y ∷ path) n m h.1 e)

pub slice_from-IsCycle :
    (edges : String → List String) (path : List String) (node : String)
    → contains node path ≡ true
    → IsChain edges (path ++ node ∷ [])
    → IsCycle edges (slice_from node path ++ node ∷ [])
unfolding slice_from contains
slice_from-IsCycle edges [] node c h = cc
slice_from-IsCycle edges (x ∷ xs) node c h = elim (Bool-cases (str_eq x node)) [
  | inl hit ↦
      let same : x ≡ node = ground (arith, eq_iff x node, hit) in
      rw hit (record {
        node = node;
        between = xs;
        closed = ap (λ z. z ∷ xs ++ node ∷ []) same;
        chain = h;
      })
  | inr miss ↦ rw miss (slice_from-IsCycle edges xs node (ground (arith, miss, c)) h.1)
]

-- The nodes that are finished, the latest first, between two calls.
pub record Explored (edges : String → List String) (path done_nodes visited : List String)
    : Type 0 where
  pub ordered : IsOrdered edges done_nodes
  pub apart : (x : String) → contains x done_nodes ≡ true → contains x path ≡ false
  pub same : (x : String) → contains x visited ≡ (contains x done_nodes || contains x path)

-- What a search from `nodes` leaves: a cycle, or the nodes among the finished ones.
pub record Finished (edges : String → List String) (path before nodes visited : List String)
    : Type 0 where
  pub done_nodes : List String
  pub explored : Explored edges path done_nodes visited
  pub kept : (x : String) → contains x before ≡ true → contains x done_nodes ≡ true
  pub reached : All (λ n. contains n done_nodes ≡ true) nodes

abbrev pub Fits : (String → List String) → List String → List String → List String → Search → Type 0
Fits edges path before nodes (cyclic c) = IsCycle edges c
Fits edges path before nodes (clear v) = Finished edges path before nodes v
Fits edges path before nodes lost = ⊥

All-imp :
    (P Q : String → Type 0) (xs : List String) → ((x : String) → P x → Q x) → All P xs → All Q xs
All-imp P Q [] f h = tt
All-imp P Q (x ∷ xs) f h = (f x h.0, All-imp P Q xs f h.1)

widen :
    (edges : String → List String) (path before : List String) (n : String)
    (ns visited : List String)
    → (h : Finished edges path before (n ∷ []) visited) → (r : Search)
    → Fits edges path h.done_nodes ns r
    → Fits edges path before (n ∷ ns) r
widen edges path before n ns visited h (cyclic c) f = f
widen edges path before n ns visited h lost f = f
widen edges path before n ns visited h (clear v) f = record {
  done_nodes = f.done_nodes;
  explored = f.explored;
  kept = λ x b. f.kept x (h.kept x b);
  reached = (f.kept n h.reached.0, f.reached);
}

pub search_each-Fits :
    (edges : String → List String) (path : List String) (dfs_of : List String → String → Search)
    (ns : List String)
    → All
        (λ n.
          (before visited : List String)
          → Explored edges path before visited
          → Fits edges path before (n ∷ []) (dfs_of visited n))
        ns
    → (before visited : List String) → Explored edges path before visited
    → Fits edges path before ns (search_each dfs_of visited ns)
unfolding search_each
search_each-Fits edges path dfs_of [] f before visited e = record {
  done_nodes = before;
  explored = e;
  kept = λ x h. h;
  reached = tt;
}
search_each-Fits edges path dfs_of (n ∷ ns) f before visited e =
    go (dfs_of visited n) (f.0 before visited e) (search_each-Fits edges path dfs_of ns f.1)
  where
    go :
        (r : Search)
        → Fits edges path before (n ∷ []) r
        → ((b v : List String)
            → Explored edges path b v
            → Fits edges path b ns (search_each dfs_of v ns))
        → Fits edges path before
            (n ∷ ns)
            (elim r [ cyclic c ↦ cyclic c | lost ↦ lost | clear v ↦ search_each dfs_of v ns ])
    go (cyclic c) h rest = h
    go lost h rest = h
    go (clear v) h rest =
        widen edges path before n ns v h (search_each dfs_of v ns) (rest h.done_nodes v h.explored)
