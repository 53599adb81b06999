-- ===== src/FileLocks/Spec.antt =====
-- What src/file-locks.ts promises, on a table of locks: each key with its lock or none.
use the_bureau.FileLocks.Acquire.{is_free_for}
use the_bureau.FileLocks.Ownership.{LockOp, acquire, expire, release, release_all}
use the_bureau.FileLocks.{FileLock, LockRequest, holds, lock_keys, lock_of, Db, scan_pattern}
use the_bureau.Prelude.{
  ◌&&◌, Bool, List, Option, String, [], all, contains, if◌then◌else◌, lookup, none, some, str_eq, ℕ,
  ◌∷◌,
}

-- Of the store, what each key reads as.
abbrev pub Table : Type 0
Table = String → Option FileLock

unfoldable pub table : Db → Table
table db key = lookup key db

-- All of the keys or none: every key gets the new lock if no other session holds one of them.
unfoldable pub acquire_spec : String → LockRequest → ℕ → Table → Table
acquire_spec project req now t key =
    let keys = lock_keys project req.paths in
    if all (λ k. is_free_for req.session_id (t k)) keys && contains key keys
    then some (lock_of req now)
    else t key

-- The session's own locks among the keys that satisfy a test are gone.
unfoldable pub give_up : String → (String → Bool) → Table → Table
give_up session is_named t key = if is_named key && holds session (t key) then none else t key

unfoldable pub op_spec : LockOp → Table → Table
op_spec (acquire project req now) t = acquire_spec project req now t
op_spec (release project session paths) t =
    give_up session (λ k. contains k (lock_keys project paths)) t
op_spec (release_all matches project session) t =
    give_up session (λ k. matches (scan_pattern project) k) t
op_spec (expire gone) t = λ key. if str_eq gone key then none else t key

unfoldable pub ops_spec : List LockOp → Table → Table
ops_spec [] t = t
ops_spec (o ∷ os) t = ops_spec os (op_spec o t)
