-- ===== src/FixIntegrity.antt =====
-- The guard on what a fix agent has changed (src/rework/fix-integrity.ts). The regular expressions
-- are parameters: which paths name test files, the skip markers of a language, and the attribute
-- of a test; so is `trim`. Reports and patches come as lists of lines.
pub mod Laws
pub mod Headers
mod Tests
use the_bureau.Prelude.{
  ◌==◌, Bool, List, Option, String, [], contains, if◌then◌else◌, filter, length, none, not, some,
  str_eq, suc, zero, ◌||◌, ℕ, ◌∷◌, get_or, false, ◌&&◌, any, ltb,
}
use text.Mathlib.Text.{starts_with}

pub record ExecCriterionRef : Type 0 where
  pub name : String
  pub coverage_ids : List String

pub data Damage : Type 0 where
  coverage_vanished : List String → Damage
  test_deleted skip_marker_added : String → Damage
  test_renamed : Option String → String → Damage
  attributes_removed : String → ℕ → ℕ → Damage

-- `GuardVerdict`: `none` for `{ ok: true }`.
abbrev pub GuardVerdict : Type 0
GuardVerdict = Option Damage

unfoldable pub find_criterion :
    (ExecCriterionRef → Bool) → List ExecCriterionRef → Option ExecCriterionRef
find_criterion p [] = none
find_criterion p (c ∷ cs) = if p c then some c else find_criterion p cs

-- The criteria of the failure by their names; `none` if there is no failure.
unfoldable pub find_failed_coverage_criterion :
    Option (List String) → List ExecCriterionRef → Option ExecCriterionRef
find_failed_coverage_criterion none cs = none
find_failed_coverage_criterion (some failing) cs =
    elim (find_criterion (λ c. not (length c.coverage_ids == 0)) cs) [
      | none ↦ none
      | some cov ↦ if contains cov.name failing then some cov else none
    ]

unfoldable pub check_coverage_still_gated :
    Option ExecCriterionRef → List ExecCriterionRef → GuardVerdict
check_coverage_still_gated none cs = none
check_coverage_still_gated (some cov) cs = elim (find_criterion (λ c. str_eq c.name cov.name) cs) [
  | none ↦ some (coverage_vanished cov.coverage_ids)
  | some m ↦
      let gone = filter (λ id. not (contains id m.coverage_ids)) cov.coverage_ids in
      if length gone == 0 then none else some (coverage_vanished gone)
]

pub data DiffFileStatus : Type 0 where
  added modified deleted renamed : DiffFileStatus

pub record DiffFile : Type 0 where
  pub path : String
  pub old_path : Option String
  pub status : DiffFileStatus

-- `parts[1]` and `parts[2]` where they are there and not empty
unfoldable pub field : ℕ → List String → Option String
field n [] = none
field zero (p ∷ ps) = if str_eq p "" then none else some p
field (suc n) (p ∷ ps) = field n ps

unfoldable pub one_file : DiffFileStatus → Option String → Option DiffFile
one_file status none = none
one_file status (some path) = some (record { path = path; old_path = none; status = status })

unfoldable pub renamed_file : Option String → Option String → Option DiffFile
renamed_file none to = none
renamed_file (some from) none = none
renamed_file (some from) (some to) =
    some (record { path = to; old_path = some from; status = renamed })

-- One line of `git diff --name-status`, split at its tabs: the code and the paths.
unfoldable pub parse_status_line : String → List String → Option DiffFile
parse_status_line code paths =
    if starts_with code "R"
    then renamed_file (field 0 paths) (field 1 paths)
    else if starts_with code "C"
    then one_file added (if ltb (length paths) 2 then field 0 paths else field 1 paths)
    else if str_eq code "A"
    then one_file added (field 0 paths)
    else if str_eq code "D"
    then one_file deleted (field 0 paths)
    else one_file modified (field 0 paths)

-- `parseNameStatus`, on lines that are not empty and split at their tabs.
unfoldable pub parse_name_status : List (String × List String) → List DiffFile
parse_name_status [] = []
parse_name_status ((code, paths) ∷ lines) = elim (parse_status_line code paths) [
  | none ↦ parse_name_status lines
  | some f ↦ f ∷ parse_name_status lines
]

pub record DiffShapeInput : Type 0 where
  pub files : List DiffFile
  pub patch : List String
  pub language : String

pub record Patterns : Type 0 where
  pub is_test_file : String → Bool
  pub skip_markers : String → Option (String → Bool)
  pub is_test_attribute : String → Bool
  pub trim : String → String

unfoldable pub drop_chars : ℕ → String → String
drop_chars zero s = s
drop_chars (suc n) String.[] = ""
drop_chars (suc n) (String.◌∷◌ c s) = drop_chars n s

-- `p === "/dev/null" ? null : p.replace(/^[ab]\//, "")` of a header line
unfoldable pub header_path : Patterns → String → Option String
header_path r line =
    let p = r.trim (drop_chars 4 line) in
    if str_eq p "/dev/null"
    then none
    else if starts_with p "a/" || starts_with p "b/"
    then some (drop_chars 2 p)
    else some p

-- The lines of one kind with their files: `own` begins the header that names the file and `other`
-- the header that is passed over, `mark` begins such a line and `marks` what is no such line.
unfoldable pub parse_lines :
    Patterns
    → String
    → String
    → String
    → String
    → Option String
    → List String
    → List (String × String)
parse_lines r own other mark marks current [] = []
parse_lines r own other mark marks current (line ∷ lines) =
    if starts_with line "diff --git "
    then parse_lines r own other mark marks none lines
    else if starts_with line own
    then parse_lines r own other mark marks (header_path r line) lines
    else if starts_with line other
    then parse_lines r own other mark marks current lines
    else elim current [
      | none ↦ parse_lines r own other mark marks none lines
      | some path ↦
          if not (str_eq path "") && starts_with line mark && not (starts_with line marks)
          then (path, drop_chars 1 line) ∷ parse_lines r own other mark marks (some path) lines
          else parse_lines r own other mark marks (some path) lines
    ]

unfoldable pub parse_added_lines : Patterns → List String → List (String × String)
parse_added_lines r patch = parse_lines r "+++ " "--- " "+" "+++" none patch

unfoldable pub parse_removed_lines : Patterns → List String → List (String × String)
parse_removed_lines r patch = parse_lines r "--- " "+++ " "-" "---" none patch

-- `byFile.get(path) ?? []`
unfoldable pub lines_of : String → List (String × String) → List String
lines_of path [] = []
lines_of path ((p, line) ∷ ls) = if str_eq p path then line ∷ lines_of path ls else lines_of path ls

module _ (r : Patterns) where
  -- `input.language ? SKIP_MARKERS[input.language] : undefined`
  unfoldable pub markers_of : DiffShapeInput → Option (String → Bool)
  markers_of input = if str_eq input.language "" then none else r.skip_markers input.language

  unfoldable pub marker_lines : DiffShapeInput → List (String × String)
  marker_lines input = elim (markers_of input) [
    | none ↦ []
    | some is_marker ↦ parse_added_lines r input.patch
  ]

  unfoldable pub removed_lines : DiffShapeInput → List (String × String)
  removed_lines input =
      if str_eq input.language "dotnet" then parse_removed_lines r input.patch else []

  unfoldable pub attributes : List String → ℕ
  attributes lines = length (filter r.is_test_attribute lines)

  unfoldable pub has_marker : DiffShapeInput → DiffFile → Bool
  has_marker input f = elim (markers_of input) [
    | none ↦ false
    | some is_marker ↦ r.is_test_file f.path && any is_marker (lines_of f.path (marker_lines input))
  ]

  unfoldable pub loses_attributes : DiffShapeInput → DiffFile → Bool
  loses_attributes input f =
      str_eq input.language "dotnet"
      && (r.is_test_file (get_or f.old_path f.path) || r.is_test_file f.path)
      && ltb (attributes (lines_of f.path (marker_lines input)))
          (attributes (lines_of (get_or f.old_path f.path) (removed_lines input)))

  -- One round of the loop of `classifyDiffShape`.
  unfoldable pub classify_file : DiffShapeInput → DiffFile → GuardVerdict
  classify_file input f = elim f.status [
    | deleted ↦
        if r.is_test_file (get_or f.old_path f.path) then some (test_deleted f.path) else none
    | renamed ↦
        if r.is_test_file (get_or f.old_path f.path)
        then some (test_renamed f.old_path f.path)
        else if has_marker input f
        then some (skip_marker_added f.path)
        else none
    | added ↦ if has_marker input f then some (skip_marker_added f.path) else none
    | modified ↦
        if has_marker input f
        then some (skip_marker_added f.path)
        else if loses_attributes input f
        then some (
            attributes_removed f.path
              (attributes (lines_of (get_or f.old_path f.path) (removed_lines input)))
              (attributes (lines_of f.path (marker_lines input))))
        else none
  ]

  unfoldable pub classify_files : DiffShapeInput → List DiffFile → GuardVerdict
  classify_files input [] = none
  classify_files input (f ∷ fs) = elim (classify_file input f) [
    | none ↦ classify_files input fs
    | some damage ↦ some damage
  ]

  unfoldable pub classify_diff_shape : DiffShapeInput → GuardVerdict
  classify_diff_shape input = classify_files input input.files

  -- `evaluateFixIntegrity`; without a diff the second tier is skipped.
  unfoldable pub evaluate_fix_integrity :
      Option ExecCriterionRef → List ExecCriterionRef → Option DiffShapeInput → GuardVerdict
  evaluate_fix_integrity failed_coverage cs diff =
      elim (check_coverage_still_gated failed_coverage cs) [
        | some damage ↦ some damage
        | none ↦ elim diff [ none ↦ none | some input ↦ classify_diff_shape input ]
      ]

-- `resolveIntegrityDiffRange`; an unknown head is absent or empty.
unfoldable pub resolve_integrity_diff_range :
    Option String → Option String → Option (String × String)
resolve_integrity_diff_range from to =
    let a = get_or from "" in
    let b = get_or to "" in if str_eq a "" || str_eq b "" then none else some (a, b)
