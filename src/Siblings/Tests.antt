-- ===== src/Siblings/Tests.antt =====
-- The overlaps of the files of three tasks of src/workspace/sibling-overlap.ts.
use the_bureau.Siblings.{TaskInput, find_sibling_file_overlaps}
use the_bureau.Prelude.{List, [], true, ◌∷◌, All}
use the_bureau.Siblings.Parallel.{AreParallel, find_sibling_file_overlaps-All}

-- The last task needs the first one, and all of them name the same file.
abbrev three_tasks : List TaskInput
three_tasks =
    record { id = "a"; depends_on = []; task = "f" }
    ∷ record { id = "b"; depends_on = []; task = "f" }
    ∷ record { id = "c"; depends_on = "a" ∷ []; task = "f" }
    ∷ []

find_sibling_file_overlaps-All_example :
    All
      (λ o. AreParallel three_tasks o.a o.b)
      (find_sibling_file_overlaps (λ text. text ∷ []) (λ file. "") (λ a b. true) three_tasks)
find_sibling_file_overlaps-All_example =
    find_sibling_file_overlaps-All three_tasks (λ text. text ∷ []) (λ file. "") (λ a b. true)
