-- ===== src/FileLocks.antt =====
-- File locks (src/file-locks.ts): one Redis key `locks:<project>:<path>` for a locked path. The
-- Lua script runs atomically, so an acquisition is one step. Keys do not expire within an
-- operation; between two operations an expiry is a step of its own (FileLocks/Ownership).
pub mod Acquire
pub mod Ownership
pub mod Spec
pub mod Refinement
pub mod Keys
mod Tests
use the_bureau.Prelude.{
  ◌+◌, ◌++◌, ◌==◌, Bool, List, Option, String, [], delete, if◌then◌else◌, false, filter, get_or,
  insert, lookup, map, none, some, str_eq, ℕ, ◌∷◌,
}
use text.Mathlib.Text.{starts_with}
use Prim.Native.String

pub data Mode : Type 0 where
  exclusive shared : Mode

pub record FileLock : Type 0 where
  pub session_id : String
  pub task_id : String
  pub graph_id : String
  pub mode : Mode
  pub since : ℕ

abbrev pub Db : Type 0
Db = List (String × FileLock)

pub record LockRequest : Type 0 where
  pub session_id : String
  pub task_id : String
  pub graph_id : String
  pub paths : List String
  pub mode : Mode

pub record Conflict : Type 0 where
  pub path : String
  pub session_id : String
  pub task_id : String

pub record LockResult : Type 0 where
  pub acquired : List String
  pub conflicts : List Conflict

pub record ReleaseResult : Type 0 where
  pub released : List String
  pub not_held : List String

infixl 65 ◌+++◌
abbrev ◌+++◌ : String → String → String
a +++ b = String.◌++◌ a b

-- `locks:${project}:`, and the key of a path.
pub prefix : String → String
prefix project = "locks:" +++ project +++ ":"

pub lock_key : String → String → String
unfolding prefix
lock_key project path = prefix project +++ path

-- What is left of a key behind a prefix, and the whole key if it does not begin with it.
drop_text : String → String → Option String
drop_text String.[] s = some s
drop_text (String.◌∷◌ c p) String.[] = none
drop_text (String.◌∷◌ c p) (String.◌∷◌ d s) =
    if Prim.Native.Char.code c == Prim.Native.Char.code d then drop_text p s else none

pub path_of_key : String → String → String
unfolding drop_text prefix
path_of_key project key = get_or (drop_text (prefix project) key) key

-- Phase 1 of the script: the first key that another session holds.
pub data Found : Type 0 where
  free : Found
  held : String → FileLock → Found

check_key : String → Option FileLock → String → Found → Found
check_key key none caller rest = rest
check_key key (some l) caller rest = if str_eq l.session_id caller then rest else held key l

pub find_conflict : List String → String → Db → Found
unfolding check_key
find_conflict [] caller db = free
find_conflict (k ∷ ks) caller db = check_key k (lookup k db) caller (find_conflict ks caller db)

-- Phase 2: every key is set.
pub set_all : List String → FileLock → Db → Db
set_all [] l db = db
set_all (k ∷ ks) l db = set_all ks l (insert k l db)

pub lock_of : LockRequest → ℕ → FileLock
lock_of req now = record {
  session_id = req.session_id;
  task_id = req.task_id;
  graph_id = req.graph_id;
  mode = req.mode;
  since = now;
}

pub lock_keys : String → List String → List String
unfolding lock_key
lock_keys project paths = map (lock_key project) paths

finish_acquire : String → LockRequest → ℕ → Db → Found → LockResult × Db
unfolding lock_keys lock_of set_all path_of_key
finish_acquire project req now db free = (
  record { acquired = req.paths; conflicts = [] },
  set_all (lock_keys project req.paths) (lock_of req now) db,
)
finish_acquire project req now db (held key l) = (
  record {
    acquired = [];
    conflicts =
        record { path = path_of_key project key; session_id = l.session_id; task_id = l.task_id }
        ∷ [];
  },
  db,
)

pub acquire_locks : String → LockRequest → ℕ → Db → LockResult × Db
unfolding finish_acquire find_conflict
acquire_locks project req now db =
    finish_acquire project req now db
      (find_conflict (lock_keys project req.paths) req.session_id db)

-- Whether the session holds the key.
pub holds : String → Option FileLock → Bool
holds session none = false
holds session (some l) = str_eq l.session_id session

-- One round of the loop of `releaseLocks`.
release_one : String → String → String → ReleaseResult × Db → ReleaseResult × Db
unfolding holds lock_key
release_one project session path (r, db) =
    if holds session (lookup (lock_key project path) db)
    then (record r { released = r.released ++ path ∷ [] }, delete (lock_key project path) db)
    else (record r { not_held = r.not_held ++ path ∷ [] }, db)

pub release_from : String → String → List String → ReleaseResult × Db → ReleaseResult × Db
unfolding release_one
release_from project session [] acc = acc
release_from project session (p ∷ ps) acc =
    release_from project session ps (release_one project session p acc)

pub release_locks : String → String → List String → Db → ReleaseResult × Db
unfolding release_from
release_locks project session paths db =
    release_from project session paths (record { released = []; not_held = [] }, db)

-- The pattern of the scans, in which a project's name is not escaped.
pub scan_pattern : String → String
unfolding prefix
scan_pattern project = prefix project +++ "*"

-- `scanKeys`; whether a key matches a pattern is up to Redis.
project_keys : (String → String → Bool) → String → Db → List String
unfolding scan_pattern
project_keys matches project db = filter (λ k. matches (scan_pattern project) k) (map (λ e. e.0) db)

-- One round of the loop of `releaseAllForSession`.
release_key : String → String → ℕ × Db → ℕ × Db
unfolding holds
release_key session key (n, db) =
    if holds session (lookup key db) then (n + 1, delete key db) else (n, db)

pub release_keys : String → List String → ℕ × Db → ℕ × Db
unfolding release_key
release_keys session [] acc = acc
release_keys session (k ∷ ks) acc = release_keys session ks (release_key session k acc)

pub release_all_for_session : (String → String → Bool) → String → String → Db → ℕ × Db
unfolding release_keys project_keys
release_all_for_session matches project session db =
    release_keys session (project_keys matches project db) (0, db)

-- `listProjectLocks`
list_entry : String → Option FileLock → String → List (String × FileLock)
unfolding path_of_key
list_entry project none key = []
list_entry project (some l) key = (path_of_key project key, l) ∷ []

list_keys : String → List String → Db → List (String × FileLock)
unfolding list_entry
list_keys project [] db = []
list_keys project (k ∷ ks) db = list_entry project (lookup k db) k ++ list_keys project ks db

pub list_project_locks : (String → String → Bool) → String → Db → List (String × FileLock)
unfolding list_keys project_keys
list_project_locks matches project db = list_keys project (project_keys matches project db) db
