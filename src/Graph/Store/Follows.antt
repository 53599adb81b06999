-- ===== src/Graph/Store/Follows.antt =====
-- A relation between the stores before and after a handler of src/task-graph.ts: the status of
-- each task moves along the transition table, and no task disappears.
use mathlib.Core.Path.{subst}
use the_bureau.Prelude.{
  String, Option, some, List, [], ◌∷◌, ◌≡◌, refl, inl, inr, str_eq, eq_iff, if◌then◌else◌, arith,
  Bool-cases, Option-cases, Bool, none,
}
use the_bureau.StateMachine.{
  TaskStatus, TransitionName, Checked, same, named, err, transition, transitions,
}
use the_bureau.StateMachine.Laws.{Trace, start, step, Trace-append, Trace-completed}
use the_bureau.Graph.Types.{TaskNode, Patch, EventType, Effect, Error}
use the_bureau.Graph.Store.Obeys.{
  IsPreorder, Obeys, Obeys-pure, Obeys-bind, Obeys-fold, Obeys-throw, if-along, case_option,
  if-Obeys, option-along,
}
use the_bureau.Graph.Store.{
  Store, Action, ◌>>=◌, pure, fold_m, find, put, emit, call, assign, write_status,
  update_task_status, update_task_fields, modify, pure, throw, ◌>>=◌, fold_m, Action, Result, get,
}

-- Reading back what `put` has written.
pub find-put :
    (k j : String) (t u : TaskNode) (ts : List (String × TaskNode))
    → find k ts ≡ some u
    → find j (put k t ts) ≡ (if str_eq k j then some t else find j ts)
unfolding find put
find-put k j t u [] h = cc
find-put k j t u ((i, v) ∷ ts) h =
    ground (arith, eq_iff i k, eq_iff i j, eq_iff k j, find-put k j t u ts)

-- A task that was there is still there, and its status has moved along the table.
pub record Moved (before : TaskNode) (after : Option TaskNode) : Type 0 where
  pub node : TaskNode
  pub present : after ≡ some node
  pub trace : Trace before.status node.status

pub record Follows (s s' : Store) : Type 0 where
  pub moved : (id : String) (t : TaskNode) → find id s.tasks ≡ some t → Moved t (find id s'.tasks)

pub Follows-preorder : IsPreorder Follows
Follows-preorder = record {
  still = λ s. record { moved = λ id t h. record { node = t; present = h; trace = start } };
  chain = λ s t u p q. record {
    moved = λ id x h.
        let m = p.moved id x h in
        let n = q.moved id m.node m.present in
        record { node = n.node; present = n.present; trace = Trace-append m.trace n.trace };
  };
}

-- Writing a task back with a status that the table allows.
pub Follows-put :
    (s s' : Store) (id : String) (t new : TaskNode)
    → find id s.tasks ≡ some t
    → s'.tasks ≡ put id new s.tasks
    → Trace t.status new.status
    → Follows s s'
Follows-put s s' id t new found wrote trace = record {
  moved = λ j u h. elim (Bool-cases (str_eq id j)) [
    | inl e ↦ record {
      node = new;
      present = rw wrote (rw (find-put id j new t s.tasks found) (rw e refl));
      trace =
          let same_task : t ≡ u = cc ((eq_iff id j).0 e) in
          subst (λ x. Trace x.status new.status) same_task trace;
    }
    | inr e ↦ record {
      node = u;
      present = rw wrote (rw (find-put id j new t s.tasks found) (rw e h));
      trace = start;
    }
  ];
}

-- What leaves the tasks alone.
pub Follows-of_same_tasks : (s s' : Store) → s'.tasks ≡ s.tasks → Follows s s'
Follows-of_same_tasks s s' e = record {
  moved = λ id t h. record { node = t; present = rw e h; trace = start };
}

transition-eq-named :
    (a b : TaskStatus) (id g : String) (name : TransitionName)
    → transition a b id g ≡ named name
    → transitions a b ≡ some name
unfolding transition
transition-eq-named a b id g name h = ground arith

write_status-Follows :
    (s : Store) (id : String) (new : TaskStatus) (extra : Patch) (t : TaskNode) (c : Checked)
    → find id s.tasks ≡ some t
    → transition t.status new id s.graph_id ≡ c
    → Follows s (write_status id new extra t c s).1
unfolding write_status
write_status-Follows s id new extra t same found e = Follows-preorder.still s
write_status-Follows s id new extra t (named n) found e =
    Follows-put s _ id t _ found refl (step new n start (transition-eq-named _ _ _ _ n e))
write_status-Follows s id new extra t (err _) found e = Follows-preorder.still s

-- Writing a status never leaves the table: what is not in it is thrown, with nothing written.
pub update_task_status-Follows :
    (id : String) (new : TaskStatus) (extra : Patch)
    → Obeys Follows (update_task_status id new extra)
unfolding update_task_status
update_task_status-Follows id new extra = record {
  along = λ s. elim (Option-cases (find id s.tasks)) [
    | inl absent ↦ rw (absent, update_task_status) (Follows-preorder.still s)
    | inr (t, found) ↦
        rw (found, update_task_status) (write_status-Follows s id new extra t _ found refl)
  ];
}

pub update_task_fields-Follows :
    (id : String) (status : Option TaskStatus) (p : Patch)
    → Obeys Follows (update_task_fields id status p)
unfolding update_task_fields assign
update_task_fields-Follows id (some status) p = record { along = Follows-preorder.still }
update_task_fields-Follows id none p = record {
  along = λ s. elim (Option-cases (find id s.tasks)) [
    | inl absent ↦ rw (absent, update_task_fields) (Follows-preorder.still s)
    | inr (t, found) ↦ rw (found, update_task_fields) (Follows-put s _ id t _ found refl start)
  ];
}

pub emit-Follows : (type : EventType) (id : Option String) → Obeys Follows (emit type id)
unfolding emit
emit-Follows type id = record { along = λ s. Follows-of_same_tasks s _ refl }

pub call-Follows : (e : Effect) → Obeys Follows (call e)
unfolding call
call-Follows e = record { along = λ s. Follows-of_same_tasks s _ refl }

pub modify-Follows :
    (f : Store → Store) → ((s : Store) → (f s).tasks ≡ s.tasks) → Obeys Follows (modify f)
modify-Follows f h = record { along = λ s. Follows-of_same_tasks s _ (h s) }

-- A completed task is completed after every action that follows the table.
pub Follows-completed :
    (s s' : Store) (id : String) (t : TaskNode)
    → Follows s s'
    → find id s.tasks ≡ some t
    → t.status ≡ TaskStatus.completed
    → (u : TaskNode) × (find id s'.tasks ≡ some u) × (u.status ≡ TaskStatus.completed)
Follows-completed s s' id t f h e =
    let m = f.moved id t h in (m.node, m.present, Trace-completed e m.trace)

-- The rules of `Obeys` at this relation.
pub ret : {A : Type 0} (a : A) → Obeys Follows (pure a)
ret = Obeys-pure Follows-preorder

pub throws : {A : Type 0} (e : Error) → Obeys Follows (throw {A = A} e)
throws = Obeys-throw Follows-preorder

pub seq :
    {A B : Type 0} (m : Action A) (f : A → Action B)
    → Obeys Follows m
    → ((a : A) → Obeys Follows (f a))
    → Obeys Follows (m >>= f)
seq = Obeys-bind Follows-preorder

pub loop :
    {A B : Type 0} (f : B → A → Action B) (b : B) (xs : List A)
    → ((b : B) (a : A) → Obeys Follows (f b a))
    → Obeys Follows (fold_m f b xs)
loop = Obeys-fold Follows-preorder

pub choose :
    {A : Type 0} (b : Bool) (m n : Action A)
    → Obeys Follows m
    → Obeys Follows n
    → Obeys Follows (if b then m else n)
choose = if-Obeys Follows

pub branch :
    {A : Type 0} (s : Store) (b : Bool) (m n : Result A × Store)
    → Follows s m.1
    → Follows s n.1
    → Follows s (if b then m else n).1
branch = if-along Follows

pub pick :
    {A B : Type 0} (s : Store) (o : Option B) (m : Result A × Store) (f : B → Result A × Store)
    → Follows s m.1
    → ((b : B) → Follows s (f b).1)
    → Follows s (case_option o m f).1
pick = option-along Follows

pub observe :
    {A : Type 0} (f : Store → Action A)
    → ((s : Store) → Obeys Follows (f s))
    → Obeys Follows (get >>= f)
observe f h = seq get f (record { along = Follows-preorder.still }) h
