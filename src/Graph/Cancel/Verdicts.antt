-- ===== src/Graph/Cancel/Verdicts.antt =====
-- What updateGraphStatus of src/task-graph.ts does to the store.
use the_bureau.Graph.Store.Obeys.{Obeys}
use the_bureau.Graph.Cancel.{deregister}
use the_bureau.Graph.Env.{Env}
use the_bureau.Graph.Cancel.{
  finish_registry, is_terminal_graph, stamp, sync_registry, teardown, update_graph_status,
}
use the_bureau.Graph.Store.Steady.{
  IsCalm, IsCalm-call, IsCalm-if, IsCalm-pure, IsCalm-seq, Steady, is_promotion, IsCalm-observe,
}
use the_bureau.Graph.Types.{
  GraphStatus, TaskGraph, ValidationFailure, cleanup_workspace, registry_done, registry_failure,
  registry_status,
}
use the_bureau.Graph.Store.{◌>>◌, Result, Store, call, pure, return}
use the_bureau.Prelude.{
  ◌&&◌, Bool, Option, String, if◌then◌else◌, false, is_some, none, not, refl, some, true, ℕ, ◌≡◌,
  Option-cases, inl, inr,
}

module _ (env : Env) where
  teardown-IsCalm : (keep : Bool) → IsCalm (teardown env keep)
  unfolding teardown is_promotion
  teardown-IsCalm keep =
      IsCalm-observe
        (λ s.
          ((if is_some s.graph && env.has_registry && not keep then call deregister else pure tt)
            >> (if env.has_cleanup then call cleanup_workspace else pure tt)))
        (λ s.
          IsCalm-seq _ _ (IsCalm-if _ _ _ (IsCalm-call deregister refl) IsCalm-pure)
            (IsCalm-if _ _ _ (IsCalm-call cleanup_workspace refl) IsCalm-pure))

  finish_registry-IsCalm :
      (status : GraphStatus) (at : Option ℕ) → IsCalm (finish_registry env status at)
  unfolding finish_registry is_promotion
  finish_registry-IsCalm status at =
      IsCalm-seq _ _ (IsCalm-call registry_done refl)
        (IsCalm-seq _ _ (IsCalm-if _ _ _ (IsCalm-call _ refl) IsCalm-pure) (teardown-IsCalm false))

  sync_registry-IsCalm :
      (status : GraphStatus) (f : Option ValidationFailure) (at : Option ℕ)
      → IsCalm (sync_registry env status f at)
  unfolding sync_registry is_terminal_graph is_promotion
  sync_registry-IsCalm GraphStatus.validating f at =
      IsCalm-call (registry_status GraphStatus.validating) refl
  sync_registry-IsCalm GraphStatus.reworking f at =
      IsCalm-call (registry_status GraphStatus.reworking) refl
  sync_registry-IsCalm GraphStatus.validation_failed (some f) at =
      IsCalm-seq _ _ (IsCalm-call (registry_failure f) refl) (teardown-IsCalm true)
  sync_registry-IsCalm GraphStatus.validation_failed none at =
      finish_registry-IsCalm GraphStatus.validation_failed at
  sync_registry-IsCalm GraphStatus.completed f at = finish_registry-IsCalm GraphStatus.completed at
  sync_registry-IsCalm GraphStatus.failed f at = finish_registry-IsCalm GraphStatus.failed at
  sync_registry-IsCalm GraphStatus.canceled f at = finish_registry-IsCalm GraphStatus.canceled at
  sync_registry-IsCalm GraphStatus.validated f at = finish_registry-IsCalm GraphStatus.validated at
  sync_registry-IsCalm GraphStatus.merged f at = finish_registry-IsCalm GraphStatus.merged at
  sync_registry-IsCalm GraphStatus.active f at = IsCalm-pure

  -- The graph's record gets the status, and nothing else of the store changes but the calls.
  pub record IsMarked (status : GraphStatus) (s : Store) (g : TaskGraph) (r : Result Unit × Store)
      : Type 0 where
    pub returns : r.0 ≡ return tt
    pub record_now : TaskGraph
    pub stored : r.1.graph ≡ some record_now
    pub marked : record_now.status ≡ status
    pub same_id : r.1.graph_id ≡ s.graph_id
    pub same_locks : r.1.completion_locks ≡ s.completion_locks
    pub steady : Steady s r.1

  pub update_graph_status-IsMarked :
      (status : GraphStatus) (f : Option ValidationFailure) (reason : Option String) (s : Store)
      (g : TaskGraph)
      → s.graph ≡ some g
      → IsMarked status s g (update_graph_status env status f reason s)
  unfolding update_graph_status stamp
  update_graph_status-IsMarked status f reason s g has =
      let g' = stamp env status reason g in
      let sync =
        IsCalm-if env.has_registry _ _ (sync_registry-IsCalm status f g'.completed_at)
          IsCalm-pure in
      let s1 : Store = record s { graph = some g' } in
      let rest = sync.steady.along s1 in
      rw (has, update_graph_status)
        (record {
          returns = sync.returns s1;
          record_now = g';
          stored = sync.keeps s1;
          marked = refl;
          same_id = sync.same_id s1;
          same_locks = sync.same_locks s1;
          steady = record {
            same_tasks = rest.same_tasks;
            stays = λ h. rest.stays refl;
            same_promotions = rest.same_promotions;
          };
        })

  pub update_graph_status-Steady :
      (status : GraphStatus) (f : Option ValidationFailure) (reason : Option String)
      → Obeys Steady (update_graph_status env status f reason)
  unfolding update_graph_status
  update_graph_status-Steady status f reason = record {
    along = λ s. elim (Option-cases s.graph) [
      | inl missing ↦
          rw (missing, update_graph_status)
            (record { same_tasks = refl; stays = λ h. absurd (cc h); same_promotions = refl })
      | inr (g, has) ↦ (update_graph_status-IsMarked status f reason s g has).steady
    ];
  }
