-- ===== src/FileLocks/Acquire.antt =====
-- The two outcomes of an acquisition in src/file-locks.ts.
use mathlib.Core.Path.{subst}
use the_bureau.Prelude.{
  Bool, List, Option, String, [], all, arith, contains, if◌then◌else◌, eq_iff, false, inl, inr,
  insert, lookup, lookup-insert, none, refl, some, str_eq, true, ℕ, ◌∷◌, ◌≡◌, ◌≢◌, ◌⊎◌, Bool-cases,
}
use the_bureau.FileLocks.{
  find_conflict, set_all, lock_keys, finish_acquire, acquire_locks, FileLock, Found, LockRequest,
  Mode, free, held, lock_of, path_of_key, Db,
}

pub lookup-set_all :
    (ks : List String) (j : String) (l : FileLock) (db : Db)
    → lookup j (set_all ks l db) ≡ (if contains j ks then some l else lookup j db)
unfolding set_all contains
lookup-set_all [] j l db = refl
lookup-set_all (k ∷ ks) j l db =
    ground (arith, lookup-set_all ks j l (insert k l db), lookup-insert k j l db)

-- No other session holds what is read.
unfoldable pub is_free_for : String → Option FileLock → Bool
is_free_for caller none = true
is_free_for caller (some l) = str_eq l.session_id caller

find_conflict-free :
    (ks : List String) (caller : String) (db : Db)
    → find_conflict ks caller db ≡ free
    → all (λ k. is_free_for caller (lookup k db)) ks ≡ true
unfolding find_conflict is_free_for
find_conflict-free [] caller db e = refl
find_conflict-free (k ∷ ks) caller db e = ground (arith, find_conflict-free ks caller db)

find_conflict-held :
    (ks : List String) (caller key : String) (l : FileLock) (db : Db)
    → find_conflict ks caller db ≡ held key l
    → (contains key ks ≡ true) × (lookup key db ≡ some l) × (str_eq l.session_id caller ≡ false)
unfolding find_conflict contains
find_conflict-held [] caller key l db e = cc
find_conflict-held (k ∷ ks) caller key l db e =
    ground (arith, find_conflict-held ks caller key l db, eq_iff k key)

-- The acquisition was granted: the paths are returned without a conflict, no other session held
-- a key, and every key now reads as the new lock.
pub record Granted (project : String) (req : LockRequest) (now : ℕ) (db : Db) (key : String)
    : Type 0 where
  pub acquired : (acquire_locks project req now db).0.acquired ≡ req.paths
  pub no_conflict : (acquire_locks project req now db).0.conflicts ≡ []
  pub were_free :
      all (λ k. is_free_for req.session_id (lookup k db)) (lock_keys project req.paths) ≡ true
  pub reads : lookup key (acquire_locks project req now db).1 ≡ (
      if contains key (lock_keys project req.paths) then some (lock_of req now) else lookup key db)

-- The acquisition was refused: nothing is acquired or written, and the one conflict names the
-- lock that another session holds on a requested key.
pub record Refused (project : String) (req : LockRequest) (now : ℕ) (db : Db) : Type 0 where
  pub key : String
  pub lock : FileLock
  pub acquired : (acquire_locks project req now db).0.acquired ≡ []
  pub unchanged : (acquire_locks project req now db).1 ≡ db
  pub conflict :
      (acquire_locks project req now db).0.conflicts
      ≡ record {
        path = path_of_key project key;
        session_id = lock.session_id;
        task_id = lock.task_id;
      }
        ∷ []
  pub requested : contains key (lock_keys project req.paths) ≡ true
  pub held_by_other : (lookup key db ≡ some lock) × (lock.session_id ≢ req.session_id)

Found-cases : (f : Found) → (f ≡ free) ⊎ ((k : String) × (l : FileLock) × (f ≡ held k l))
Found-cases free = inl refl
Found-cases (held k l) = inr (k, l, refl)

-- Every acquisition is granted or refused as a whole; if it is granted, each key of the store
-- reads as the new lock if it was requested, and as before if it was not.
pub acquire_locks_outcome :
    (project : String) (req : LockRequest) (now : ℕ) (db : Db) (key : String)
    → Granted project req now db key ⊎ Refused project req now db
unfolding acquire_locks finish_acquire
acquire_locks_outcome project req now db key =
    elim (Found-cases (find_conflict (lock_keys project req.paths) req.session_id db)) [
      | inl none_held ↦ inl (record {
        acquired = rw (none_held, finish_acquire) refl;
        no_conflict = rw (none_held, finish_acquire) refl;
        were_free = find_conflict-free _ _ db none_held;
        reads =
            rw (none_held, finish_acquire)
              (lookup-set_all (lock_keys project req.paths) key (lock_of req now) db);
      })
      | inr (k, l, some_held) ↦
          let h = find_conflict-held _ req.session_id k l db some_held in
          inr (record {
            key = k;
            lock = l;
            acquired = rw (some_held, finish_acquire) refl;
            unchanged = rw (some_held, finish_acquire) refl;
            conflict = rw (some_held, finish_acquire) refl;
            requested = h.0;
            held_by_other = (h.1, ground (arith, eq_iff l.session_id req.session_id, h.2));
          })
    ]

all-contained :
    (p : String → Bool) (ks : List String) (key : String)
    → all p ks ≡ true
    → contains key ks ≡ true
    → p key ≡ true
unfolding contains
all-contained p [] key h c = absurd (cc c)
all-contained p (k ∷ ks) key h c = elim (Bool-cases (str_eq k key)) [
  | inl hit ↦
      let e : k ≡ key = ground (arith, eq_iff k key, hit) in
      subst (λ x. p x ≡ true) e (ground (arith, h))
  | inr miss ↦ all-contained p ks key (ground (arith, h)) (ground (arith, c, miss))
]

-- Whatever the mode of a held lock and that of a request are, another session's lock on a requested
-- key lets nothing be acquired and leaves the store as it is: a shared lock excludes a shared one.
pub acquire_locks_mode :
    (project : String) (req : LockRequest) (asked given : Mode) (now : ℕ) (key : String)
    (l : FileLock) (db : Db)
    → contains key (lock_keys project req.paths) ≡ true
    → lookup key db ≡ some (record l { mode = given })
    → str_eq l.session_id req.session_id ≡ false
    → ((acquire_locks project (record req { mode = asked }) now db).0.acquired ≡ [])
      × ((acquire_locks project (record req { mode = asked }) now db).1 ≡ db)
unfolding is_free_for
acquire_locks_mode project req asked given now key l db wanted has foreign =
    elim (acquire_locks_outcome project (record req { mode = asked }) now db key) [
      | inr no_grant ↦ (no_grant.acquired, no_grant.unchanged)
      | inl grant ↦
          let own =
            all-contained (λ k. is_free_for req.session_id (lookup k db))
              (lock_keys project req.paths) key grant.were_free wanted in
          absurd (cc (rw has at own, foreign))
    ]
