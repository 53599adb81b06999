-- ===== src/Registry.antt =====
-- The registry of graphs by destination (src/workspace/graph-registry.ts): summaries of the graphs
-- that hold files, the files they have written, and the overlap of two footprints. Expiry of keys
-- is not modelled, and no stored summary is malformed.
pub mod Laws
mod Tests
use Prim.Native.String
use the_bureau.Prelude.{
  ◌&&◌, ◌+◌, ◌++◌, Bool, List, Option, String, [], contains, delete, distinct, if◌then◌else◌, false,
  filter, get_or, insert, lookup, ltb, map, none, not, set_add, some, str_eq, true, ℕ, ◌∷◌,
}

pub data SummaryStatus : Type 0 where
  active validating done validation_failed reworking : SummaryStatus

-- `GraphSummary`, as far as the registry reads it; `failed_at` is `failure?.at`.
pub record GraphSummary : Type 0 where
  pub graph_id : String
  pub project : String
  pub status : SummaryStatus
  pub predicted_files : List String
  pub started_at : ℕ
  pub updated_at : ℕ
  pub failed_at : Option ℕ

-- The keys of one destination: the meta key and the files key of each graph.
pub record Registry : Type 0 where
  pub metas : List (String × GraphSummary)
  pub files : List (String × List String)

-- `destKey`; an absent destination is the empty one.
pub dest_key : String → String → String
dest_key destination cwd = if str_eq destination "" then String.◌++◌ "local:" cwd else destination

unfoldable pub is_active : SummaryStatus → Bool
is_active done = false
is_active validation_failed = false
is_active _ = true

unfoldable pub fails : SummaryStatus → Bool
fails validation_failed = true
fails reworking = true
fails _ = false

-- `isActivePeer`, `isFailure`
unfoldable pub is_active_peer : GraphSummary → Bool
unfolding is_active
is_active_peer s = is_active s.status

unfoldable pub is_failure : GraphSummary → Bool
unfolding fails
is_failure s = fails s.status

-- `footprintOverlap`, with the directory of a file as a parameter: "" for one without a slash.
pub record Overlap : Type 0 where
  pub exact : List String
  pub dir : List String

module _ (dir_of : String → String) where
  -- `new Set(files.map(dirOf).filter(Boolean))`
  unfoldable pub dirs_of : List String → List String
  dirs_of files = filter (λ d. not (str_eq d "")) (map dir_of files)

  unfoldable pub is_neighbour : List String → List String → List String → String → Bool
  is_neighbour mine theirs exact f =
      let d = dir_of f in
      not (str_eq d "")
      && contains d (dirs_of mine)
      && contains d (dirs_of theirs)
      && not (contains f exact)
      && not (contains d (dirs_of exact))

  unfoldable pub footprint_overlap : List String → List String → Overlap
  footprint_overlap mine theirs =
      let exact = filter (λ f. contains f theirs) mine in
      record {
        exact = exact;
        dir = filter (is_neighbour mine theirs exact) (distinct (mine ++ theirs));
      }

pub register : GraphSummary → Registry → Registry
register s r = record r { metas = insert s.graph_id s r.metas }

-- An entry that is gone is not made again.
pub set_status : String → SummaryStatus → ℕ → Registry → Registry
set_status id status now r = elim (lookup id r.metas) [
  | none ↦ r
  | some s ↦ record r { metas = insert id (record s { status = status; updated_at = now }) r.metas }
]

add_each : List String → List String → List String
add_each [] old = old
add_each (f ∷ fs) old = add_each fs (set_add f old)

pub add_actual_files : String → List String → Registry → Registry
unfolding add_each
add_actual_files id [] r = r
add_actual_files id (f ∷ fs) r = elim (lookup id r.metas) [
  | none ↦ r
  | some s ↦ record r {
    files = insert id (add_each (f ∷ fs) (get_or (lookup id r.files) [])) r.files;
  }
]

predicted_of : Option GraphSummary → List String
predicted_of none = []
predicted_of (some s) = s.predicted_files

pub get_footprint : String → Registry → List String
unfolding predicted_of
get_footprint id r = distinct (predicted_of (lookup id r.metas) ++ get_or (lookup id r.files) [])

-- `scanSummaries` over the keys of one destination.
unfoldable pub scan_summaries : (GraphSummary → Bool) → Registry → List GraphSummary
scan_summaries keep r = filter keep (map (λ e. e.1) r.metas)

pub get_active_graphs : Registry → List GraphSummary
get_active_graphs r = scan_summaries is_active_peer r

unfoldable pub get_recent_failures : Registry → List GraphSummary
get_recent_failures r = scan_summaries is_failure r

pub record_validation_failure : String → ℕ → ℕ → Registry → Registry
record_validation_failure id failed_at now r = elim (lookup id r.metas) [
  | none ↦ r
  | some s ↦ record {
    metas =
        insert id
          (record s { status = validation_failed; failed_at = some failed_at; updated_at = now })
          r.metas;
    files = delete id r.files;
  }
]

unfoldable pub deregister : String → Registry → Registry
deregister id r = record { metas = delete id r.metas; files = delete id r.files }

-- `clearFailuresOlderThan`: whether an entry of the scan is swept.
unfoldable pub sweeps : ℕ → ℕ → SummaryStatus → Bool
sweeps older_than failed_at validation_failed = ltb failed_at older_than
sweeps older_than failed_at _ = false

unfoldable pub is_swept : ℕ → GraphSummary → Bool
unfolding sweeps
is_swept older_than s = sweeps older_than (get_or s.failed_at 0) s.status

unfoldable pub clear_from : ℕ → List GraphSummary → ℕ × Registry → ℕ × Registry
clear_from older_than [] acc = acc
clear_from older_than (s ∷ ss) (n, r) =
    if is_swept older_than s
    then clear_from older_than ss (n + 1, deregister s.graph_id r)
    else clear_from older_than ss (n, r)

unfoldable pub clear_failures_older_than : ℕ → Registry → ℕ × Registry
clear_failures_older_than older_than r = clear_from older_than (get_recent_failures r) (0, r)
