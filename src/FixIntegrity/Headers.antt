-- ===== src/FixIntegrity/Headers.antt =====
-- How the guard of src/rework/fix-integrity.ts reads the headers of a patch.
use text.Mathlib.Text.{starts_with}
use the_bureau.Prelude.{refl}
use the_bureau.FixIntegrity.{Patterns, drop_chars, header_path, parse_lines}
use the_bureau.Prelude.{List, String, all, not, true, ◌≡◌, Option, none, ◌∷◌, [], arith}

no_file :
    (r : Patterns) (lines : List String)
    → all (λ l. not (starts_with l "+++ ")) lines ≡ true
    → parse_lines r "+++ " "--- " "+" "+++" none lines ≡ []
unfolding parse_lines
no_file r [] h = refl
no_file r (l ∷ ls) h = ground (arith, h, no_file r ls)

-- An added line whose text is `++ /dev/null` shows in a patch as `+++ /dev/null`, and is taken for
-- a header: of the lines after it, none is read as added to a file, up to the next header.
pub added_header_hides :
    (r : Patterns) (current : Option String) (lines : List String)
    → r.trim "/dev/null" ≡ "/dev/null"
    → all (λ l. not (starts_with l "+++ ")) lines ≡ true
    → parse_lines r "+++ " "--- " "+" "+++" current ("+++ /dev/null" ∷ lines) ≡ []
unfolding parse_lines header_path drop_chars
added_header_hides r current lines trimmed plain = rw trimmed (no_file r lines plain)
