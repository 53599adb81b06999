-- ===== src/FileLocks/Ownership.antt =====
-- Who can take a lock of src/file-locks.ts away, over sequences of operations.
use the_bureau.FileLocks.Acquire.{acquire_locks_outcome, is_free_for}
use the_bureau.Prelude.{
  Bool, Bool-cases, List, String, [], all, arith, contains, delete, eq_iff, false, inl, inr, lookup,
  lookup-delete, not, some, str_eq, true, ℕ, ◌∙◌, ◌∷◌, ◌≡◌,
}
use the_bureau.FileLocks.{
  release_one, release_from, release_locks, release_key, release_keys, release_all_for_session,
  project_keys, lock_key, holds, acquire_locks, FileLock, LockRequest, ReleaseResult, lock_keys, Db,
}

pub data LockOp : Type 0 where
  acquire : String → LockRequest → ℕ → LockOp
  release : String → String → List String → LockOp
  -- with the keys that match a pattern in a scan
  release_all : (String → String → Bool) → String → String → LockOp
  expire : String → LockOp

unfoldable pub run_op : LockOp → Db → Db
run_op (acquire project req now) db = (acquire_locks project req now db).1
run_op (release project session paths) db = (release_locks project session paths db).1
run_op (release_all matches project session) db =
    (release_all_for_session matches project session db).1
run_op (expire key) db = delete key db

unfoldable pub run_ops : List LockOp → Db → Db
run_ops [] db = db
run_ops (o ∷ os) db = run_ops os (run_op o db)

-- The operation is not one of the session `owner`, nor the expiry of `key`.
unfoldable pub is_foreign : String → String → LockOp → Bool
is_foreign owner key (acquire project req now) = not (str_eq owner req.session_id)
is_foreign owner key (release project session paths) = not (str_eq owner session)
is_foreign owner key (release_all matches project session) = not (str_eq owner session)
is_foreign owner key (expire k) = not (str_eq k key)

module _ (session key : String) (l : FileLock) (other : str_eq l.session_id session ≡ false) where
  release_one_keeps :
      (project path : String) (acc : ReleaseResult × Db)
      → lookup key acc.1 ≡ some l
      → lookup key (release_one project session path acc).1 ≡ some l
  unfolding release_one holds
  release_one_keeps project path (r, db) h =
      ground
        (arith, lookup-delete (lock_key project path) key db, eq_iff (lock_key project path) key)

  release_from_keeps :
      (project : String) (paths : List String) (acc : ReleaseResult × Db)
      → lookup key acc.1 ≡ some l
      → lookup key (release_from project session paths acc).1 ≡ some l
  unfolding release_from
  release_from_keeps project [] acc h = h
  release_from_keeps project (p ∷ ps) acc h =
      release_from_keeps project ps (release_one project session p acc)
        (release_one_keeps project p acc h)

  release_key_keeps :
      (k : String) (acc : ℕ × Db)
      → lookup key acc.1 ≡ some l
      → lookup key (release_key session k acc).1 ≡ some l
  unfolding release_key holds
  release_key_keeps k (n, db) h = ground (arith, lookup-delete k key db, eq_iff k key)

  release_keys_keeps :
      (ks : List String) (acc : ℕ × Db)
      → lookup key acc.1 ≡ some l
      → lookup key (release_keys session ks acc).1 ≡ some l
  unfolding release_keys
  release_keys_keeps [] acc h = h
  release_keys_keeps (k ∷ ks) acc h =
      release_keys_keeps ks (release_key session k acc) (release_key_keeps k acc h)

pub all-at :
    (p : String → Bool) (key : String) (ks : List String)
    → all p ks ≡ true
    → contains key ks ≡ true
    → p key ≡ true
unfolding contains
all-at p key [] h c = cc
all-at p key (k ∷ ks) h c = ground (arith, eq_iff k key, all-at p key ks)

acquire_keeps :
    (key : String) (l : FileLock) (project : String) (req : LockRequest) (now : ℕ) (db : Db)
    → str_eq l.session_id req.session_id ≡ false
    → lookup key db ≡ some l
    → lookup key (acquire_locks project req now db).1 ≡ some l
unfolding is_free_for
acquire_keeps key l project req now db other h =
    elim (acquire_locks_outcome project req now db key) [
      | inr denied ↦ rw denied.unchanged h
      | inl granted ↦ elim (Bool-cases (contains key (lock_keys project req.paths))) [
        | inl asked ↦
            let free_here = all-at _ key (lock_keys project req.paths) granted.were_free asked in
            absurd (ground (arith, free_here))
        | inr apart ↦ granted.reads ∙ rw apart h
      ]
    ]

run_op_keeps :
    (o : LockOp) (key : String) (l : FileLock) (db : Db)
    → is_foreign l.session_id key o ≡ true
    → lookup key db ≡ some l
    → lookup key (run_op o db) ≡ some l
unfolding run_op is_foreign release_locks release_all_for_session
run_op_keeps (acquire project req now) key l db f h =
    acquire_keeps key l project req now db (ground arith) h
run_op_keeps (release project session paths) key l db f h =
    release_from_keeps session key l (ground arith) project paths _ h
run_op_keeps (release_all matches project session) key l db f h =
    release_keys_keeps session key l (ground arith) (project_keys matches project db) (0, db) h
run_op_keeps (expire k) key l db f h = rw (lookup-delete k key db) (ground arith)

-- A lock stays as it is through any sequence of acquisitions and releases by other sessions and
-- of expiries of other keys.
pub run_ops_keeps :
    (os : List LockOp) (key : String) (l : FileLock) (db : Db)
    → lookup key db ≡ some l
    → all (is_foreign l.session_id key) os ≡ true
    → lookup key (run_ops os db) ≡ some l
unfolding run_ops
run_ops_keeps [] key l db h f = h
run_ops_keeps (o ∷ os) key l db h f =
    run_ops_keeps os key l (run_op o db) (run_op_keeps o key l db (ground arith) h) (ground arith)
