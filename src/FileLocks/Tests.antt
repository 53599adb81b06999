-- ===== src/FileLocks/Tests.antt =====
-- The theorems on src/file-locks.ts with two sessions.
use the_bureau.FileLocks.Spec.{ops_spec, table}
use the_bureau.FileLocks.Refinement.{acquire-release_restores, run_ops-refines}
use the_bureau.FileLocks.Keys.{other_project_excludes}
use the_bureau.Prelude.{String, [], lookup, refl, some, ◌∷◌, ◌≡◌, ◌⊎◌, List, true, contains}
use the_bureau.FileLocks.{
  LockRequest, Mode, acquire_locks, lock_key, lock_of, Db, lock_keys, prefix,
}
use the_bureau.FileLocks.Ownership.{LockOp, is_foreign, run_ops, run_ops_keeps}
use the_bureau.FileLocks.Acquire.{Granted, Refused, acquire_locks_mode, acquire_locks_outcome}
use Prim.Native.String

abbrev request : String → LockRequest
request session = record {
  session_id = session;
  task_id = "t";
  graph_id = "g";
  paths = "a.ts" ∷ [];
  mode = Mode.exclusive;
}

abbrev taken : Db
taken = ("locks:p:a.ts", lock_of (request "s1") 7) ∷ []

run_ops_keeps_example :
    lookup "locks:p:a.ts" (
      run_ops
        (LockOp.acquire "p" (request "s2") 9
          ∷ LockOp.release_all (λ pattern key. true) "p" "s2"
          ∷ [])
        taken)
    ≡ some (lock_of (request "s1") 7)
unfolding lookup is_foreign lock_of
run_ops_keeps_example =
    run_ops_keeps
      (LockOp.acquire "p" (request "s2") 9 ∷ LockOp.release_all (λ pattern key. true) "p" "s2" ∷ [])
      "locks:p:a.ts" (lock_of (request "s1") 7) taken refl refl

acquire_locks_outcome_example :
    Granted "p" (request "s2") 9 taken "locks:p:a.ts" ⊎ Refused "p" (request "s2") 9 taken
acquire_locks_outcome_example = acquire_locks_outcome "p" (request "s2") 9 taken "locks:p:a.ts"

acquire_locks_mode_example :
    ((acquire_locks "p" (record (request "s2") { mode = Mode.shared }) 9 taken).0.acquired ≡ [])
    × ((acquire_locks "p" (record (request "s2") { mode = Mode.shared }) 9 taken).1 ≡ taken)
unfolding lookup contains lock_keys lock_key prefix lock_of
acquire_locks_mode_example =
    acquire_locks_mode "p" (request "s2") Mode.shared (lock_of (request "s1") 7).mode 9
      "locks:p:a.ts" (lock_of (request "s1") 7) taken refl refl refl

abbrev nested : Db
nested = ("locks:p:q:a", lock_of (request "s1") 7) ∷ []

abbrev only_a : LockRequest
only_a = record (request "s2") { paths = "a" ∷ [] }

other_project_excludes_example :
    ((acquire_locks (String.◌++◌ (String.◌++◌ "p" ":") "q") only_a 9 nested).0.acquired ≡ [])
    × ((acquire_locks (String.◌++◌ (String.◌++◌ "p" ":") "q") only_a 9 nested).1 ≡ nested)
unfolding lookup lock_key prefix lock_of
other_project_excludes_example =
    other_project_excludes "p" "q" "a" only_a 9 (lock_of (request "s1") 7) nested refl refl refl

abbrev lock_ops : List LockOp
lock_ops =
    LockOp.acquire "p" (request "s2") 9
    ∷ LockOp.release_all (λ pattern key. true) "p" "s1"
    ∷ LockOp.expire "locks:p:b"
    ∷ []

run_ops-refines_example : table (run_ops lock_ops taken) ≡ ops_spec lock_ops (table taken)
run_ops-refines_example = run_ops-refines lock_ops taken

acquire-release_restores_example :
    table (
      run_ops
        (LockOp.acquire "p" (record (request "s2") { paths = "b.ts" ∷ [] }) 9
          ∷ LockOp.release "p" "s2" ("b.ts" ∷ [])
          ∷ [])
        taken)
    ≡ table taken
unfolding lookup lock_keys lock_key prefix
acquire-release_restores_example =
    acquire-release_restores "p" (record (request "s2") { paths = "b.ts" ∷ [] }) 9 taken refl
