-- ===== src/Scenario/Validate/Printed.antt =====
-- `printReport` of scripts/scenario/validate.ts.
use examples_service.Common.{String, ◌<>◌, List, [], ◌∷◌, ◌++◌, map, length}
use examples_service.Common.Text.{show_ℕ}
use examples_service.Scenario.Report.{Report}

abbrev verdict_line : List String → List String → String
verdict_line [] [] = "  OK"
verdict_line [] (w ∷ warnings) = "  PASS (" <> show_ℕ (length (w ∷ warnings)) <> " warning(s))"
verdict_line (e ∷ errors) warnings =
    "  FAILED ("
    <> show_ℕ (length (e ∷ errors))
    <> " error(s), "
    <> show_ℕ (length warnings)
    <> " warning(s))"

abbrev last_line : Report → String
last_line report = verdict_line report.errors report.warnings

-- What is printed of a report.
pub print_report : Report → String → List String
print_report report path =
    ("scenario:validate  " <> path) ∷ map (λ w. "  WARN  " <> w) report.warnings
    ++ map (λ e. "  FAIL  " <> e) report.errors
    ++ last_line report ∷ []
