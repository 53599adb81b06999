-- ===== src/Graph/Store/Obeys.antt =====
-- How to show of a handler of src/task-graph.ts that it relates the store before it to the store
-- after it, whether it returns or throws.
use the_bureau.Prelude.{Bool, true, false, Option, none, some, List, [], ◌∷◌, if◌then◌else◌}
use the_bureau.Graph.Types.{Error}
use the_bureau.Graph.Store.{
  Store, Result, return, raise, Action, and_then, ◌>>=◌, pure, throw, fold_m,
}

pub record IsPreorder (R : Store → Store → Type 0) : Type 0 where
  pub still : (s : Store) → R s s
  pub chain : (s t u : Store) → R s t → R t u → R s u

-- The action takes every store to one that `R` relates it to.
pub record Obeys (R : Store → Store → Type 0) {A : Type 0} (m : Action A) : Type 0 where
  pub along : (s : Store) → R s (m s).1

module _ {R : Store → Store → Type 0} (o : IsPreorder R) where
  pub Obeys-pure : {A : Type 0} (a : A) → Obeys R (pure a)
  Obeys-pure a = record { along = o.still }

  pub Obeys-throw : {A : Type 0} (e : Error) → Obeys R (throw {A = A} e)
  Obeys-throw e = record { along = o.still }

  and_then-along :
      {A B : Type 0} (r : Result A) (f : A → Action B) (s : Store)
      → ((a : A) → Obeys R (f a))
      → R s (and_then r f s).1
  and_then-along (return a) f s h = (h a).along s
  and_then-along (raise e) f s h = o.still s

  pub Obeys-bind :
      {A B : Type 0} (m : Action A) (f : A → Action B)
      → Obeys R m
      → ((a : A) → Obeys R (f a))
      → Obeys R (m >>= f)
  Obeys-bind m f hm hf = record {
    along = λ s. o.chain s (m s).1 _ (hm.along s) (and_then-along (m s).0 f (m s).1 hf);
  }

  pub Obeys-fold :
      {A B : Type 0} (f : B → A → Action B) (b : B) (xs : List A)
      → ((b : B) (a : A) → Obeys R (f b a))
      → Obeys R (fold_m f b xs)
  unfolding fold_m
  Obeys-fold f b [] h = Obeys-pure b
  Obeys-fold f b (x ∷ xs) h = Obeys-bind (f b x) _ (h b x) (λ b'. Obeys-fold f b' xs h)

-- An action that branches on a value which it has read from the store `s`.
abbrev pub case_option : {A B : Type 0} → Option A → B → (A → B) → B
case_option o x f = elim o [ none ↦ x | some a ↦ f a ]

module _ (R : Store → Store → Type 0) {A : Type 0} where
  pub if-Obeys : (b : Bool) (m n : Action A) → Obeys R m → Obeys R n → Obeys R (if b then m else n)
  if-Obeys true m n hm hn = hm
  if-Obeys false m n hm hn = hn

  pub if-along :
      (s : Store) (b : Bool) (m n : Result A × Store)
      → R s m.1
      → R s n.1
      → R s (if b then m else n).1
  if-along s true m n hm hn = hm
  if-along s false m n hm hn = hn

  pub option-along :
      {B : Type 0} (s : Store) (o : Option B) (m : Result A × Store) (f : B → Result A × Store)
      → R s m.1
      → ((b : B) → R s (f b).1)
      → R s (case_option o m f).1
  option-along s none m f hm hf = hm
  option-along s (some b) m f hm hf = hf b
