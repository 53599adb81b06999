-- ===== src/FileLocks/Refinement.antt =====
-- The store of src/file-locks.ts against the table of locks.
use mathlib.Core.Path.{fun_ext}
use the_bureau.FileLocks.Ownership.{
  LockOp, acquire, expire, release, release_all, run_op, run_ops, all-at,
}
use the_bureau.FileLocks.Spec.{acquire_spec, give_up, table, op_spec, ops_spec, Table}
use the_bureau.FileLocks.Acquire.{acquire_locks_outcome, is_free_for}
use the_bureau.FileLocks.{
  FileLock, LockRequest, ReleaseResult, acquire_locks, holds, lock_key, lock_keys, project_keys,
  release_all_for_session, release_from, release_key, release_keys, release_one, Db, release_locks,
  lock_of, scan_pattern,
}
use the_bureau.Prelude.{
  Bool, List, String, [], all, arith, contains, eq_iff, false, inl, inr, lookup, lookup-delete, map,
  refl, some, true, ℕ, ◌∙◌, ◌∷◌, ◌≡◌, ◌&&◌, Option, ap, contains-filter, filter, is_some, none, not,
  Bool-cases, str_eq_refl,
}

all-some :
    (p : String → Bool) (key : String) (ks : List String)
    → contains key ks ≡ true
    → p key ≡ false
    → all p ks ≡ false
unfolding contains
all-some p key [] c h = cc
all-some p key (k ∷ ks) c h = ground (arith, eq_iff k key, all-some p key ks)

acquire-refines :
    (project : String) (req : LockRequest) (now : ℕ) (db : Db) (key : String)
    → lookup key (acquire_locks project req now db).1 ≡ acquire_spec project req now (table db) key
unfolding acquire_spec is_free_for table
acquire-refines project req now db key = elim (acquire_locks_outcome project req now db key) [
  | inl granted ↦ granted.reads ∙ rw granted.were_free refl
  | inr denied ↦
      rw
        (
          denied.unchanged,
          all-some (λ k. is_free_for req.session_id (lookup k db)) denied.key
              (lock_keys project req.paths) denied.requested
              (ground (
                arith,
                denied.held_by_other.0,
                eq_iff denied.lock.session_id req.session_id,
                denied.held_by_other.1,
              )),
        )
        refl
]

release_from-refines :
    (project session key : String) (paths : List String) (acc : ReleaseResult × Db)
    → lookup key (release_from project session paths acc).1
      ≡ give_up session (λ k. contains k (lock_keys project paths)) (table acc.1) key
unfolding release_from release_one lock_keys give_up table contains holds
release_from-refines project session key [] (r, db) = refl
release_from-refines project session key (p ∷ ps) (r, db) =
    let rest =
      release_from-refines project session key ps (release_one project session p (r, db)) in
    ground (arith, rest, lookup-delete (lock_key project p) key db, eq_iff (lock_key project p) key)

release_keys-refines :
    (session key : String) (ks : List String) (acc : ℕ × Db)
    → lookup key (release_keys session ks acc).1
      ≡ give_up session (λ k. contains k ks) (table acc.1) key
unfolding release_keys release_key give_up table contains holds
release_keys-refines session key [] (n, db) = refl
release_keys-refines session key (k ∷ ks) (n, db) =
    let rest = release_keys-refines session key ks (release_key session k (n, db)) in
    ground (arith, rest, lookup-delete k key db, eq_iff k key)

stored-contained :
    (key : String) (l : FileLock) (db : Db)
    → lookup key db ≡ some l
    → contains key (map (λ e. e.0) db) ≡ true
unfolding contains lookup
stored-contained key l [] h = cc
stored-contained key l ((stored, value) ∷ db) h = ground (arith, h, stored-contained key l db)

release_all-refines :
    (matches : String → String → Bool) (project session key : String) (db : Db)
    → lookup key (release_all_for_session matches project session db).1
      ≡ give_up session (λ k. matches (scan_pattern project) k) (table db) key
unfolding release_all_for_session project_keys give_up table holds
release_all-refines matches project session key db =
    let ks = filter (λ k. matches (scan_pattern project) k) (map (λ e. e.0) db) in
    release_keys-refines session key ks (0, db)
    ∙ named (lookup key db) refl
        (contains-filter (λ k. matches (scan_pattern project) k) key (map (λ e. e.0) db))
  where
    named :
        (v : Option FileLock)
        → lookup key db ≡ v
        → contains key (filter (λ k. matches (scan_pattern project) k) (map (λ e. e.0) db))
          ≡ (matches (scan_pattern project) key && contains key (map (λ e. e.0) db))
        → give_up session
            (λ k. contains k (filter (λ k. matches (scan_pattern project) k) (map (λ e. e.0) db)))
            (table db)
            key
          ≡ give_up session (λ k. matches (scan_pattern project) k) (table db) key
    named none e f = rw e (ground arith)
    named (some l) e f = rw (e, f, stored-contained key l db e) (ground arith)

op-refines : (o : LockOp) (db : Db) → table (run_op o db) ≡ op_spec o (table db)
unfolding run_op op_spec table release_locks
op-refines (acquire project req now) db = fun_ext (λ k. acquire-refines project req now db k)
op-refines (release project session paths) db = fun_ext (λ k.
    release_from-refines project session k paths (record { released = []; not_held = [] }, db))
op-refines (release_all matches project session) db =
    fun_ext (λ k. release_all-refines matches project session k db)
op-refines (expire gone) db = fun_ext (λ k. lookup-delete gone k db)

-- Any sequence of acquisitions, releases and expiries does to the table of locks what the
-- operations promise: an acquisition sets all its keys if no other session holds one of them and is
-- without effect otherwise, a release takes exactly the own locks of the session among the keys of
-- its paths, a release of all takes exactly its own locks among the keys that match the
-- pattern of the project, and an expiry takes its key.
pub run_ops-refines : (os : List LockOp) (db : Db) → table (run_ops os db) ≡ ops_spec os (table db)
unfolding run_ops ops_spec
run_ops-refines [] db = refl
run_ops-refines (o ∷ os) db = run_ops-refines os (run_op o db) ∙ ap (ops_spec os) (op-refines o db)

unheld : (v : Option FileLock) → not (is_some v) ≡ true → v ≡ none
unheld none h = refl
unheld (some l) h = cc

unheld-free :
    (session : String) (t : Table) (ks : List String)
    → all (λ k. not (is_some (t k))) ks ≡ true
    → all (λ k. is_free_for session (t k)) ks ≡ true
unfolding is_free_for
unheld-free session t [] h = refl
unheld-free session t (k ∷ ks) h =
    let first = unheld (t k) (ground (arith, h)) in
    let rest = unheld-free session t ks (ground (arith, h)) in rw first (ground (arith, rest))

-- Where none of the requested keys is held, an acquisition followed by a release of the same paths
-- by the same session leaves every key as it was.
pub acquire-release_restores :
    (project : String) (req : LockRequest) (now : ℕ) (db : Db)
    → all (λ k. not (is_some (lookup k db))) (lock_keys project req.paths) ≡ true
    → table (run_ops (acquire project req now ∷ release project req.session_id req.paths ∷ []) db)
      ≡ table db
unfolding ops_spec op_spec acquire_spec give_up holds lock_of table
acquire-release_restores project req now db h =
    run_ops-refines (acquire project req now ∷ release project req.session_id req.paths ∷ []) db
    ∙ fun_ext (λ k. elim (Bool-cases (contains k (lock_keys project req.paths))) [
      | inl asked ↦
          let free_all = unheld-free req.session_id (table db) (lock_keys project req.paths) h in
          let free_here =
            unheld (lookup k db)
              (all-at (λ j. not (is_some (lookup j db))) k (lock_keys project req.paths) h asked) in
          ground (arith, asked, free_all, free_here, str_eq_refl req.session_id)
      | inr apart ↦ ground (arith, apart)
    ])
