-- ===== src/FixIntegrity/Laws.antt =====
-- What the guard of src/rework/fix-integrity.ts guarantees.
use the_bureau.FixIntegrity.{
  DiffFile, DiffFileStatus, DiffShapeInput, ExecCriterionRef, Patterns, classify_file,
  classify_files, find_criterion, has_marker, loses_attributes, GuardVerdict,
  check_coverage_still_gated, classify_diff_shape, coverage_vanished, evaluate_fix_integrity,
}
use the_bureau.Prelude.{
  ◌&&◌, Bool, List, Option, [], all, contains, false, get_or, none, not, refl, some, str_eq, true,
  ◌↔◌, ◌∷◌, ◌≡◌, ◌==◌, String, arith, if◌then◌else◌, filter, length,
}

-- A change of one file that the guard lets through: no test file is deleted or renamed, no marker
-- is added to a test file, and no attributes are lost.
unfoldable pub is_harmless : Patterns → DiffShapeInput → DiffFile → Bool
is_harmless r input f = elim f.status [
  | DiffFileStatus.deleted ↦ not (r.is_test_file (get_or f.old_path f.path))
  | DiffFileStatus.renamed ↦
      not (r.is_test_file (get_or f.old_path f.path)) && not (has_marker r input f)
  | DiffFileStatus.added ↦ not (has_marker r input f)
  | DiffFileStatus.modified ↦ not (has_marker r input f) && not (loses_attributes r input f)
]

file_iff :
    (r : Patterns) (input : DiffShapeInput) (path : String) (old_path : Option String)
    (status : DiffFileStatus)
    → (classify_file r input (record { path = path; old_path = old_path; status = status }) ≡ none)
      ↔ (is_harmless r input (record { path = path; old_path = old_path; status = status }) ≡ true)
unfolding classify_file is_harmless
file_iff r input path old_path DiffFileStatus.deleted =
    (λ h. ground (arith, h), λ h. ground (arith, h))
file_iff r input path old_path DiffFileStatus.renamed =
    (λ h. ground (arith, h), λ h. ground (arith, h))
file_iff r input path old_path DiffFileStatus.added =
    (λ h. ground (arith, h), λ h. ground (arith, h))
file_iff r input path old_path DiffFileStatus.modified =
    (λ h. ground (arith, h), λ h. ground (arith, h))

classify_files_iff :
    (r : Patterns) (input : DiffShapeInput) (fs : List DiffFile)
    → (classify_files r input fs ≡ none) ↔ (all (is_harmless r input) fs ≡ true)
unfolding classify_files
classify_files_iff r input [] = (λ h. refl, λ h. refl)
classify_files_iff r input (f ∷ fs) =
    go (classify_file r input f) refl (file_iff r input f.path f.old_path f.status)
      (classify_files_iff r input fs)
  where
    go :
        (v : GuardVerdict)
        → classify_file r input f ≡ v
        → (classify_file r input f ≡ none) ↔ (is_harmless r input f ≡ true)
        → (classify_files r input fs ≡ none) ↔ (all (is_harmless r input) fs ≡ true)
        → ((elim v as (λ x. GuardVerdict) [
          | none ↦ classify_files r input fs
          | some damage ↦ some damage
        ])
            ≡ none)
          ↔ (all (is_harmless r input) (f ∷ fs) ≡ true)
    go none e here rest = (λ h. ground (arith, here.0 e, rest.0 h), λ h. rest.1 (ground (arith, h)))
    go (some damage) e here rest = (λ h. cc, λ h. let fine = here.1 (ground (arith, h)) in cc)

-- What the guard asks of the coverage: the first criterion of the failed one's name still has all
-- of its ids.
unfoldable pub still_gated : Option ExecCriterionRef → List ExecCriterionRef → Bool
still_gated none cs = true
still_gated (some cov) cs = elim (find_criterion (λ c. str_eq c.name cov.name) cs) [
  | none ↦ false
  | some m ↦ all (λ id. contains id m.coverage_ids) cov.coverage_ids
]

unfoldable pub accepts : Patterns → Option DiffShapeInput → Bool
accepts r none = true
accepts r (some input) = all (is_harmless r input) input.files

none_missing :
    (ids wanted : List String)
    → (length (filter (λ id. not (contains id ids)) wanted) == 0)
      ≡ all (λ id. contains id ids) wanted
none_missing ids [] = refl
none_missing ids (w ∷ ws) = ground (arith, none_missing ids ws)

gated_iff :
    (failed : Option ExecCriterionRef) (cs : List ExecCriterionRef)
    → (check_coverage_still_gated failed cs ≡ none) ↔ (still_gated failed cs ≡ true)
unfolding check_coverage_still_gated still_gated
gated_iff none cs = (λ h. refl, λ h. refl)
gated_iff (some cov) cs = go (find_criterion (λ c. str_eq c.name cov.name) cs)
  where
    go :
        (m : Option ExecCriterionRef)
        → ((elim m as (λ x. GuardVerdict) [
          | none ↦ some (coverage_vanished cov.coverage_ids)
          | some m ↦
              (let gone = filter (λ id. not (contains id m.coverage_ids)) cov.coverage_ids in
                if length gone == 0 then none else some (coverage_vanished gone))
        ])
            ≡ none)
          ↔ ((elim m as (λ x. Bool) [
            | none ↦ false
            | some m ↦ all (λ id. contains id m.coverage_ids) cov.coverage_ids
          ])
              ≡ true)
    go none = (λ h. cc, λ h. cc)
    go (some m) =
        let count = none_missing m.coverage_ids cov.coverage_ids in
        (λ h. ground (arith, h, count), λ h. ground (arith, h, count))

-- A fix is accepted if and only if the coverage that failed is still asked for with all its ids,
-- and, where the diff can be read, every changed file is harmless: no test file is deleted or
-- renamed, no skip marker is added to one, and in a .NET project none loses test attributes.
evaluate_fix_integrity_iff :
    (r : Patterns) (failed : Option ExecCriterionRef) (cs : List ExecCriterionRef)
    (diff : Option DiffShapeInput)
    → (evaluate_fix_integrity r failed cs diff ≡ none)
      ↔ ((still_gated failed cs && accepts r diff) ≡ true)
unfolding evaluate_fix_integrity accepts classify_diff_shape
evaluate_fix_integrity_iff r failed cs diff = go (check_coverage_still_gated failed cs) refl diff
  where
    gated : (check_coverage_still_gated failed cs ≡ none) ↔ (still_gated failed cs ≡ true)
    gated = gated_iff failed cs

    go :
        (v : GuardVerdict)
        → check_coverage_still_gated failed cs ≡ v
        → (d : Option DiffShapeInput)
        → ((elim v as (λ x. GuardVerdict) [
          | some damage ↦ some damage
          | none ↦ elim d [ none ↦ none | some input ↦ classify_files r input input.files ]
        ])
            ≡ none)
          ↔ ((still_gated failed cs && accepts r d) ≡ true)
    go none e none = (λ h. ground (arith, gated.0 e), λ h. refl)
    go none e (some input) =
        let files = classify_files_iff r input input.files in
        (λ h. ground (arith, gated.0 e, files.0 h), λ h. files.1 (ground (arith, h)))
    go (some damage) e d = (λ h. cc, λ h. let fine = gated.1 (ground (arith, h)) in cc)
