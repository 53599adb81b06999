-- ===== src/FixIntegrity/Tests.antt =====
-- The guard of src/rework/fix-integrity.ts at small diffs.
use the_bureau.FixIntegrity.{markers_of, header_path, drop_chars, lines_of, skip_marker_added}
use the_bureau.Prelude.{contains}
use the_bureau.FixIntegrity.{
  markers_of, classify_diff_shape, classify_files, classify_file, has_marker, loses_attributes,
  marker_lines, parse_added_lines,
}
use the_bureau.FixIntegrity.Headers.{added_header_hides}
use the_bureau.Prelude.{[], if◌then◌else◌, false, none, refl, some, str_eq, ◌∷◌, ◌≡◌}
use the_bureau.FixIntegrity.{
  DiffFileStatus, DiffShapeInput, ExecCriterionRef, Patterns, evaluate_fix_integrity, parse_lines,
  check_coverage_still_gated, find_criterion,
}

abbrev patterns : Patterns
patterns = record {
  is_test_file = λ path. str_eq path "a.test.ts";
  skip_markers =
      λ language. if str_eq language "node" then some (λ line. str_eq line "it.skip(") else none;
  is_test_attribute = λ line. false;
  trim = λ line. line;
}

abbrev coverage : ExecCriterionRef
coverage = record { name = "cov"; coverage_ids = "E-01" ∷ [] }

abbrev skipping : DiffShapeInput
skipping = record {
  files = record { path = "a.test.ts"; old_path = none; status = DiffFileStatus.modified } ∷ [];
  patch =
      "diff --git a/a.test.ts b/a.test.ts" ∷ "--- a/a.test.ts" ∷ "+++ b/a.test.ts" ∷ "+it.skip("
      ∷ [];
  language = "node";
}

skip-is_seen :
    evaluate_fix_integrity patterns (some coverage) (coverage ∷ []) (some skipping)
    ≡ some (skip_marker_added "a.test.ts")
unfolding evaluate_fix_integrity check_coverage_still_gated find_criterion classify_diff_shape
    classify_files classify_file has_marker loses_attributes markers_of marker_lines
    parse_added_lines parse_lines header_path drop_chars lines_of contains
skip-is_seen = refl

added_header_hides_example :
    parse_lines patterns "+++ " "--- " "+" "+++"
      (some "a.test.ts")
      ("+++ /dev/null" ∷ "+it.skip(" ∷ [])
    ≡ []
added_header_hides_example =
    added_header_hides patterns (some "a.test.ts") ("+it.skip(" ∷ []) refl refl
