-- ===== src/FileLocks/Keys.antt =====
-- The keys of src/file-locks.ts, by project and path: projects are not kept apart.
use mathlib.Core.Path.{subst}
use the_bureau.FileLocks.Acquire.{acquire_locks_mode}
use the_bureau.Prelude.{
  String, ◌≡◌, [], arith, contains, false, lookup, some, str_eq, str_eq_refl, ℕ, ◌∷◌,
}
use text.Mathlib.TextLemmas.{append_assoc}
use Prim.Native.String
use the_bureau.FileLocks.{prefix, lock_key, FileLock, LockRequest, acquire_locks, lock_keys, Db}

-- A project and a path that contain a colon: the key of the path `q:path` in `project` is the
-- key of `path` in the project `project:q`.
lock_key_collides :
    (project q path : String)
    → lock_key project (String.◌++◌ (String.◌++◌ q ":") path)
      ≡ lock_key (String.◌++◌ (String.◌++◌ project ":") q) path
unfolding lock_key prefix
lock_key_collides project q path = simp append_assoc

-- A lock of another session on the path `q:path` of a project keeps a request for `path` in the
-- project `project:q` from being granted, whatever the modes.
pub other_project_excludes :
    (project q path : String) (req : LockRequest) (now : ℕ) (l : FileLock) (db : Db)
    → req.paths ≡ path ∷ []
    → lookup (lock_key project (String.◌++◌ (String.◌++◌ q ":") path)) db ≡ some l
    → str_eq l.session_id req.session_id ≡ false
    → ((acquire_locks (String.◌++◌ (String.◌++◌ project ":") q) req now db).0.acquired ≡ [])
      × ((acquire_locks (String.◌++◌ (String.◌++◌ project ":") q) req now db).1 ≡ db)
unfolding lock_keys contains
other_project_excludes project q path req now l db only has foreign =
    let there = String.◌++◌ (String.◌++◌ project ":") q in
    acquire_locks_mode there req req.mode l.mode now (lock_key there path) l db
      (rw only (ground (arith, str_eq_refl (lock_key there path))))
      (subst (λ k. lookup k db ≡ some l) (lock_key_collides project q path) has) foreign
