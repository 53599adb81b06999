-- ===== src/Graph/Walk/Termination.antt =====
-- How long the walks of src/task-graph.ts go on: a measure of the queue and of the stored tasks
-- that are not visited, against the fuel of Graph/Walk.
use the_bureau.Graph.Store.Follows.{find-put, throws}
use the_bureau.StateMachine.{TaskStatus, Checked, named, same, transition, err}
use the_bureau.Graph.Types.{out_of_fuel, Patch, TaskNode, Error}
use the_bureau.Graph.Walk.{Front, enqueue, look, walk_from, walk}
use the_bureau.Graph.Store.{
  ◌>>=◌, Action, Result, Store, and_then, find, fold_m, pure, raise, return, update_task_status,
  write_status, assign, modify, put,
}
use the_bureau.Prelude.{
  ◌+◌, ◌<◌, Bool, List, String, [], arith, contains, if◌then◌else◌, eq_iff, false, filter, is_some,
  length, not, refl, true, ℕ, ◌∷◌, ◌≡◌, ◌≢◌, ◌≤◌, length-append, suc, zero, Option,
  length-filter-le, map, none, some, ap, sym, ◌∙◌,
}

-- The stored ids that a walk has not visited.
unfoldable pub unseen : List String → List String → ℕ
unseen ids visited = length (filter (λ k. not (contains k visited)) ids)

unseen-visit-le :
    (ids visited : List String) (d : String) → unseen ids (d ∷ visited) ≤ unseen ids visited
unfolding unseen contains
unseen-visit-le [] visited d = omega arith
unseen-visit-le (k ∷ ids) visited d = ground (arith, unseen-visit-le ids visited d)

unseen-visit-lt :
    (ids visited : List String) (d : String)
    → contains d visited ≡ false
    → contains d ids ≡ true
    → unseen ids (d ∷ visited) < unseen ids visited
unfolding unseen contains
unseen-visit-lt [] visited d new h = cc
unseen-visit-lt (k ∷ ids) visited d new h =
    ground (arith, unseen-visit-le ids visited d, unseen-visit-lt ids visited d new, eq_iff k d)

-- Every stored task is named by `ids`, and there are as many.
pub record Within (ids : List String) (s : Store) : Type 0 where
  pub covers : (k : String) → is_some (find k s.tasks) ≡ true → contains k ids ≡ true
  pub counts : length ids ≡ length s.tasks

Within-of_same_tasks :
    (ids : List String) (s s' : Store) → s'.tasks ≡ s.tasks → Within ids s → Within ids s'
Within-of_same_tasks ids s s' e i = record {
  covers = λ k h. i.covers k (rw e at h);
  counts = i.counts ∙ ap length (sym e);
}

abbrev pub Good : {A : Type 0} → (A → Type 0) → Result A → Type 0
Good Q (return a) = Q a
Good Q (raise e) = e ≢ out_of_fuel

-- The action stores no other task, does not run out of fuel, and returns a value with `Q`.
pub record Enough (ids : List String) {A : Type 0} (Q : A → Type 0) (m : Action A) : Type 0 where
  pub runs : (s : Store) → Within ids s → Within ids (m s).1 × Good Q (m s).0

module _ (ids : List String) where
  pub Enough-pure : {A : Type 0} (Q : A → Type 0) (a : A) → Q a → Enough ids Q (pure a)
  Enough-pure Q a q = record { runs = λ s h. (h, q) }

  Enough-then :
      {A B : Type 0} (Q : A → Type 0) (P : B → Type 0) (r : Result A) (f : A → Action B) (s : Store)
      → Within ids s
      → Good Q r
      → ((a : A) → Q a → Enough ids P (f a))
      → Within ids (and_then r f s).1 × Good P (and_then r f s).0
  Enough-then Q P (return a) f s h g next = (next a g).runs s h
  Enough-then Q P (raise e) f s h g next = (h, g)

  pub Enough-bind :
      {A B : Type 0} (Q : A → Type 0) (P : B → Type 0) (m : Action A) (f : A → Action B)
      → Enough ids Q m
      → ((a : A) → Q a → Enough ids P (f a))
      → Enough ids P (m >>= f)
  Enough-bind Q P m f first next = record {
    runs = λ s h. Enough-then Q P (m s).0 f (m s).1 (first.runs s h).0 (first.runs s h).1 next;
  }

  pub Enough-if :
      {A : Type 0} (Q : A → Type 0) (b : Bool) (m n : Action A)
      → Enough ids Q m
      → Enough ids Q n
      → Enough ids Q (if b then m else n)
  Enough-if Q true m n hm hn = hm
  Enough-if Q false m n hm hn = hn

  -- What leaves the tasks alone and does not throw.
  pub Enough-modify :
      (f : Store → Store)
      → ((s : Store) → (f s).tasks ≡ s.tasks)
      → Enough ids (λ _. Unit) (modify f)
  Enough-modify f still = record {
    runs = λ s i. (Within-of_same_tasks ids s (f s) (still s) i, tt);
  }

  module _ (visit : String → Action Bool)
      (visits : (d : String)
        → Enough ids (λ go_on. go_on ≡ true → contains d ids ≡ true) (visit d)) where
    abbrev measure : Front → ℕ
    measure w = length w.queue + unseen ids w.visited

    look-Enough :
        (w : Front) (d : String) → Enough ids (λ w'. measure w' ≤ measure w) (look visit w d)
    unfolding look
    look-Enough w d = go (contains d w.visited) refl
      where
        after :
            (go_on : Bool)
            → contains d w.visited ≡ false
            → (go_on ≡ true → contains d ids ≡ true)
            → measure (enqueue d (record w { visited = d ∷ w.visited }) go_on) ≤ measure w
        after true new h =
            omega
              (arith, length-append w.queue (d ∷ []), unseen-visit-lt ids w.visited d new (h refl))
        after false new h = omega (arith, unseen-visit-le ids w.visited d)

        go :
            (seen : Bool)
            → contains d w.visited ≡ seen
            → Enough ids
                (λ w'. measure w' ≤ measure w)
                (if seen
                  then pure w
                  else (visit d >>= λ on.
                      pure (enqueue d (record w { visited = d ∷ w.visited }) on)))
        go true e = Enough-pure _ w (omega arith)
        go false e = Enough-bind _ _ (visit d) _ (visits d) λ on h. Enough-pure _ _ (after on e h)

    look_all-Enough :
        (n : ℕ) (ds : List String) (w : Front)
        → measure w ≤ n
        → Enough ids (λ w'. measure w' ≤ n) (fold_m (look visit) w ds)
    unfolding fold_m
    look_all-Enough n [] w h = Enough-pure _ w h
    look_all-Enough n (d ∷ ds) w h =
        Enough-bind _ _ (look visit w d) _ (look-Enough w d)
          λ w' h'. look_all-Enough n ds w' (omega (arith, h, h'))

    pub walk_from-Enough :
        (fuel : ℕ) (w : Front) (queue : List String)
        → length queue + unseen ids w.visited ≤ fuel
        → Enough ids (λ _. Unit) (walk_from visit fuel w queue)
    unfolding walk_from
    walk_from-Enough fuel w [] h = record { runs = λ s i. (i, tt) }
    walk_from-Enough zero w (current ∷ queue) h = absurd (omega (arith, h))
    walk_from-Enough (suc fuel) w (current ∷ queue) h = record {
      runs = λ s i.
          (Enough-bind _ _ (fold_m (look visit) (record w { queue = queue }) (s.rdeps current)) _
              (look_all-Enough fuel (s.rdeps current) (record w { queue = queue })
                (omega (arith, h)))
              λ w' h'. walk_from-Enough fuel w' w'.queue h').runs
            s i;
    }

    pub walk-Enough :
        (from : String) (visited : List String) → Enough ids (λ _. Unit) (walk visit from visited)
    unfolding walk unseen
    walk-Enough from visited = record {
      runs = λ s i.
          (walk_from-Enough (suc (length s.tasks))
              (record { queue = from ∷ []; visited = visited; reached = [] }) (from ∷ [])
              (omega (arith, i.counts, length-filter-le (λ k. not (contains k visited)) ids))).runs
            s i;
    }

abbrev pub ids_of : Store → List String
ids_of s = map (λ e. e.0) s.tasks

find-contains :
    (k : String) (ts : List (String × TaskNode))
    → is_some (find k ts) ≡ true
    → contains k (map (λ e. e.0) ts) ≡ true
unfolding find contains
find-contains k [] h = h
find-contains k ((j, t) ∷ ts) h = ground (arith, find-contains k ts)

length-ids : (ts : List (String × TaskNode)) → length (map (λ e. e.0) ts) ≡ length ts
length-ids [] = refl
length-ids (t ∷ ts) = omega (arith, length-ids ts)

length-put :
    (k : String) (t : TaskNode) (ts : List (String × TaskNode)) → length (put k t ts) ≡ length ts
unfolding put
length-put k t [] = refl
length-put k t ((j, u) ∷ ts) = ground (arith, length-put k t ts)

pub ids_of-Within : (s : Store) → Within (ids_of s) s
ids_of-Within s = record { covers = λ k h. find-contains k s.tasks h; counts = length-ids s.tasks }

write_status-Enough :
    (ids : List String) (id : String) (new : TaskStatus) (extra : Patch) (t : TaskNode)
    (c : Checked) (s : Store)
    → find id s.tasks ≡ some t
    → Within ids s
    → Within ids (write_status id new extra t c s).1
      × Good (λ _. Unit) (write_status id new extra t c s).0
unfolding write_status
write_status-Enough ids id new extra t same s found i = (i, tt)
write_status-Enough ids id new extra t (named _) s found i = (
  record {
    covers = λ k h.
        let there = i.covers id (ground (arith, found)) in
        let elsewhere = i.covers k in
        ground (
          arith,
          h,
          there,
          elsewhere,
          find-put id k (assign extra (record t { status = new })) t s.tasks found,
          eq_iff id k,
        );
    counts = i.counts ∙ sym (length-put id (assign extra (record t { status = new })) s.tasks);
  },
  tt,
)
write_status-Enough ids id new extra t (err e) s found i = (i, λ h. cc)

pub update_task_status-Enough :
    (ids : List String) (id : String) (new : TaskStatus) (extra : Patch)
    → Enough ids (λ _. Unit) (update_task_status id new extra)
unfolding update_task_status write_status
update_task_status-Enough ids id new extra = record { runs = λ s i. go s i (find id s.tasks) refl }
  where
    go :
        (s : Store)
        → Within ids s
        → (o : Option TaskNode) → find id s.tasks ≡ o
        → Within ids (update_task_status id new extra s).1
          × Good (λ _. Unit) (update_task_status id new extra s).0
    go s i none e = rw (e, update_task_status) (i, tt)
    go s i (some t) e =
        rw (e, update_task_status)
          (write_status-Enough ids id new extra t (transition t.status new id s.graph_id) s e i)

-- An action of which this is known for every naming of the tasks has fuel enough on any store.
pub never_out :
    {A : Type 0} {Q : List String → A → Type 0} (m : Action A) (s : Store)
    → ((ids : List String) → Enough ids (Q ids) m)
    → (m s).0 ≢ raise out_of_fuel
never_out {Q} m s h = go (m s).0 ((h (ids_of s)).runs s (ids_of-Within s)).1
  where
    go : (r : Result _) → Good (Q (ids_of s)) r → r ≢ raise out_of_fuel
    go (return a) g e = cc
    go (raise x) g e = g (cc e)

-- A walk throws what its first visit throws.
pub walk-throws :
    (visit : String → Action Bool) (id d : String) (rest : List String) (e : Error) (s s' : Store)
    → s.rdeps id ≡ d ∷ rest
    → visit d s ≡ (raise e, s')
    → walk visit id [] s ≡ (raise e, s')
unfolding walk walk_from look contains fold_m
walk-throws visit id d rest e s s' first throws = rw (first, fold_m) (rw throws refl)
