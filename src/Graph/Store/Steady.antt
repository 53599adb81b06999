-- ===== src/Graph/Store/Steady.antt =====
-- Actions of src/task-graph.ts that neither touch the tasks of a graph nor promote its work.
use the_bureau.Graph.Store.Obeys.{IsPreorder, Obeys, Obeys-bind, Obeys-pure}
use the_bureau.Graph.Store.Follows.{Follows, Follows-of_same_tasks}
use the_bureau.Graph.Types.{Effect, EventType, promote_integration}
use the_bureau.Graph.Store.{◌>>◌, Action, Store, call, emit, pure, return, ◌>>=◌}
use the_bureau.Prelude.{
  ◌+◌, Bool, List, Option, String, [], arith, if◌then◌else◌, false, refl, true, ℕ, ◌∙◌, ◌∷◌, ◌≡◌,
  is_some,
}

unfoldable pub is_promotion : Effect → ℕ
is_promotion promote_integration = 1
is_promotion _ = 0

-- The calls of `promoteIntegration` so far.
unfoldable pub promotions : List Effect → ℕ
promotions [] = 0
promotions (e ∷ es) = is_promotion e + promotions es

pub record Steady (s s' : Store) : Type 0 where
  pub same_tasks : s'.tasks ≡ s.tasks
  pub stays : is_some s.graph ≡ true → is_some s'.graph ≡ true
  pub same_promotions : promotions s'.effects ≡ promotions s.effects

pub Steady-preorder : IsPreorder Steady
Steady-preorder = record {
  still = λ s. record { same_tasks = refl; stays = λ h. h; same_promotions = refl };
  chain = λ s t u p q. record {
    same_tasks = q.same_tasks ∙ p.same_tasks;
    stays = λ h. q.stays (p.stays h);
    same_promotions = q.same_promotions ∙ p.same_promotions;
  };
}

pub Steady-Follows : {A : Type 0} (m : Action A) → Obeys Steady m → Obeys Follows m
Steady-Follows m h = record { along = λ s. Follows-of_same_tasks s (m s).1 (h.along s).same_tasks }

-- An action without a result that always returns, and keeps the graph's own record too.
pub record IsCalm (m : Action Unit) : Type 0 where
  pub returns : (s : Store) → (m s).0 ≡ return tt
  pub keeps : (s : Store) → (m s).1.graph ≡ s.graph
  pub same_id : (s : Store) → (m s).1.graph_id ≡ s.graph_id
  pub same_locks : (s : Store) → (m s).1.completion_locks ≡ s.completion_locks
  pub steady : Obeys Steady m

pub IsCalm-pure : IsCalm (pure tt)
IsCalm-pure = record {
  returns = λ s. refl;
  keeps = λ s. refl;
  same_id = λ s. refl;
  same_locks = λ s. refl;
  steady = Obeys-pure Steady-preorder tt;
}

pub IsCalm-call : (e : Effect) → is_promotion e ≡ 0 → IsCalm (call e)
unfolding call promotions
IsCalm-call e h = record {
  returns = λ s. refl;
  keeps = λ s. refl;
  same_id = λ s. refl;
  same_locks = λ s. refl;
  steady = record {
    along = λ s. record { same_tasks = refl; stays = λ h. h; same_promotions = rw h (omega arith) };
  };
}

pub IsCalm-emit : (type : EventType) (id : Option String) → IsCalm (emit type id)
unfolding emit promotions is_promotion
IsCalm-emit type id = record {
  returns = λ s. refl;
  keeps = λ s. refl;
  same_id = λ s. refl;
  same_locks = λ s. refl;
  steady = record {
    along = λ s. record { same_tasks = refl; stays = λ h. h; same_promotions = omega arith };
  };
}

pub IsCalm-seq : (m n : Action Unit) → IsCalm m → IsCalm n → IsCalm (m >> n)
IsCalm-seq m n hm hn = record {
  returns = λ s. rw (hm.returns s) (hn.returns (m s).1);
  keeps = λ s. rw (hm.returns s) (hn.keeps (m s).1 ∙ hm.keeps s);
  same_id = λ s. rw (hm.returns s) (hn.same_id (m s).1 ∙ hm.same_id s);
  same_locks = λ s. rw (hm.returns s) (hn.same_locks (m s).1 ∙ hm.same_locks s);
  steady = Obeys-bind Steady-preorder m (λ _. n) hm.steady (λ _. hn.steady);
}

pub IsCalm-if : (b : Bool) (m n : Action Unit) → IsCalm m → IsCalm n → IsCalm (if b then m else n)
IsCalm-if true m n hm hn = hm
IsCalm-if false m n hm hn = hn

pub IsCalm-observe : (f : Store → Action Unit) → ((s : Store) → IsCalm (f s)) → IsCalm (λ s. f s s)
IsCalm-observe f h = record {
  returns = λ s. (h s).returns s;
  keeps = λ s. (h s).keeps s;
  same_id = λ s. (h s).same_id s;
  same_locks = λ s. (h s).same_locks s;
  steady = record { along = λ s. (h s).steady.along s };
}

-- The rules of `Obeys` at this relation.
pub Steady-pure : {A : Type 0} (a : A) → Obeys Steady (pure a)
Steady-pure = Obeys-pure Steady-preorder

pub Steady-bind :
    {A B : Type 0} (m : Action A) (f : A → Action B)
    → Obeys Steady m
    → ((a : A) → Obeys Steady (f a))
    → Obeys Steady (m >>= f)
Steady-bind = Obeys-bind Steady-preorder
