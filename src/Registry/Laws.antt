-- ===== src/Registry/Laws.antt =====
-- What a sweep of src/workspace/graph-registry.ts removes, and what an overlap of footprints is.
use the_bureau.Registry.{dirs_of, footprint_overlap, is_neighbour}
use the_bureau.Registry.{GraphSummary, Registry, SummaryStatus, is_swept}
use the_bureau.Prelude.{
  ◌&&◌, Bool, List, String, [], arith, false, get_or, lookup, some, str_eq, true, ◌||◌, ℕ, ◌∷◌, ◌≡◌,
  All, filter, ◌++◌, contains, distinct, contains-filter, ◌<◌, ◌≢◌, ◌≤◌, ◌⊎◌,
}

-- Every entry is the one that is read under its own graph's id.
abbrev pub IsKeyed : Registry → Type 0
IsKeyed r = All (λ e. (e.1.graph_id ≡ e.0) × (lookup e.0 r.metas ≡ some e.1)) r.metas

-- The sweep removes the entries of these summaries under `id`.
removes : ℕ → String → List GraphSummary → Bool
removes cutoff id [] = false
removes cutoff id (s ∷ ss) = (is_swept cutoff s && str_eq s.graph_id id) || removes cutoff id ss

-- The entry has failed its validation before the cutoff; a time that is missing counts as 0.
pub record IsOutdated (cutoff : ℕ) (s : GraphSummary) : Type 0 where
  pub failed : s.status ≡ SummaryStatus.validation_failed
  pub before : get_or s.failed_at 0 < cutoff

-- The entry has another status, or failed at the cutoff or later.
abbrev pub IsCurrent : ℕ → GraphSummary → Type 0
IsCurrent cutoff s = (s.status ≢ SummaryStatus.validation_failed) ⊎ (cutoff ≤ get_or s.failed_at 0)

-- The exact part of an overlap is symmetric, as a set: the files of both footprints.
footprint_overlap-exact :
    (dir_of : String → String) (mine theirs : List String) (f : String)
    → contains f (footprint_overlap dir_of mine theirs).exact
      ≡ contains f (footprint_overlap dir_of theirs mine).exact
unfolding footprint_overlap
footprint_overlap-exact dir_of mine theirs f = ground (
  arith,
  contains-filter (λ g. contains g theirs) f mine,
  contains-filter (λ g. contains g mine) f theirs,
)

-- A neighbour in an overlap is no exact match, nor in the directory of one, and lies in a
-- directory in which both footprints have a file.
footprint_overlap-dir :
    (dir_of : String → String) (mine theirs : List String) (f : String)
    → contains f (footprint_overlap dir_of mine theirs).dir ≡ true
    → (contains f (footprint_overlap dir_of mine theirs).exact ≡ false)
      × (contains (dir_of f) (dirs_of dir_of (footprint_overlap dir_of mine theirs).exact) ≡ false)
      × (contains (dir_of f) (dirs_of dir_of mine) ≡ true)
      × (contains (dir_of f) (dirs_of dir_of theirs) ≡ true)
unfolding footprint_overlap is_neighbour
footprint_overlap-dir dir_of mine theirs f h =
    let exact = filter (λ g. contains g theirs) mine in
    let both =
      contains-filter (is_neighbour dir_of mine theirs exact) f (distinct (mine ++ theirs)) in
    (
      ground (arith, h, both),
      ground (arith, h, both),
      ground (arith, h, both),
      ground (arith, h, both),
    )
