-- ===== src/Completion/Task/Pending.antt =====
-- A merge that fails holds its graph back (src/task-graph.ts: onTaskCompleted,
-- checkGraphCompletion).
use the_bureau.Completion.Task.{
  add_pending, after_merge, destination_of, drop_pending, fixes_parent, is_conflict, is_integrated,
  merge_remotely,
}
use the_bureau.Graph.Store.{Store, call, emit}
use the_bureau.Completion.{RemoteMerge, Wiring}
use the_bureau.Prelude.{
  ◌&&◌, Bool-cases, List, String, arith, contains, contains-filter, false, filter, get_or, inl, inr,
  not, set_add, str_eq, str_eq_refl, true, ◌≡◌,
}

contains-set_add : (a : String) (xs : List String) → contains a (set_add a xs) ≡ true
unfolding contains set_add
contains-set_add a xs = ground (arith, str_eq_refl a)

contains-removed :
    (a : String) (xs : List String) → contains a (filter (λ p. not (str_eq p a)) xs) ≡ false
contains-removed a xs = ground (arith, contains-filter (λ p. not (str_eq p a)) a xs, str_eq_refl a)

-- What a merge of a task's branch that meets no conflict leaves pending: the task, unless the
-- engine can merge and the merge succeeds.
pub merge_remotely-pending :
    (w : Wiring) (r : RemoteMerge) (id pushed : String) (s : Store)
    → is_conflict
        (r.merges (get_or (fixes_parent s.graph) s.graph_id) id pushed (destination_of s.graph))
      ≡ false
    → contains id (merge_remotely w r id pushed s).1.pending_merges
      ≡ not (
          r.has_merge_capability
          && is_integrated (
              r.merges
                (get_or (fixes_parent s.graph) s.graph_id)
                id
                pushed
                (destination_of s.graph)))
unfolding merge_remotely after_merge add_pending drop_pending emit call
merge_remotely-pending w r id pushed s clean =
    let kept = contains-set_add id s.pending_merges in
    let gone = contains-removed id (set_add id s.pending_merges) in
    elim (Bool-cases r.has_merge_capability) [
      | inr no_clone ↦ rw no_clone kept
      | inl capable ↦
          elim (Bool-cases (
            is_integrated (
              r.merges (get_or (fixes_parent s.graph) s.graph_id) id pushed
                (destination_of s.graph)))) [
                  | inl good ↦ rw (capable, good) gone
                  | inr bad ↦ rw (capable, bad, clean) kept
                ]
    ]
