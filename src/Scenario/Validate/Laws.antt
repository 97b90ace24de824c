-- ===== src/Scenario/Validate/Laws.antt =====
-- What it means for a scenario to pass.
use examples_service.Common.{
  String, Bool, true, false, ◌&&◌, ◌≡◌, refl, sym, ap, ◌∙◌, subst, List, [], ◌∷◌, ◌++◌, all, All,
  inl, inr, if_true, if_false, Bool-cases, arith,
}
use examples_service.Js.{Value, obj, Fields, end, field, is_truthy}
use examples_service.Compiler.Outcome.{property}
use examples_service.Compiler.Substitute.{substitute}
use examples_service.Registry.Includes.{loaded}
use examples_service.Registry.Disk.{Disk, exists, load_yaml}
use examples_service.Scenario.Ending.{done, items_of, schema_defaults, run_bind, same_of_done}
use examples_service.Scenario.Report.{Report, Schemas, has_directory}
use examples_service.Scenario.Placeholders.{collect_placeholders, path_exists}
use examples_service.Scenario.Placeholders.Laws.{
  is_ok, is_resolved, substitute-collect, path_exists_lem,
}
use examples_service.Scenario.Validate.{
  launch_value, schema_value, check_scenario, check_loaded, resolve_scenario_path, run_validate,
  exit_code,
}
use examples_service.Scenario.Validate.Checks.{
  is_reachable, placeholder_errors, source_of, templates_of, collect_all, check_sources,
  schema_errors, header_errors, check_agents, check_commitments,
}
use examples_service.Scenario.Validate.Fixtures.{FixtureReport, validate_fixtures}
use examples_service.Scenario.Validate.Templates.{check_templates}

parts_nil : (xs ys : List String) → xs ++ ys ≡ [] → (xs ≡ []) × (ys ≡ [])
parts_nil [] ys h = (refl, h)
parts_nil (x ∷ xs) ys h = absurd (ground arith)

placeholder_errors_nil :
    (sources : List Fields) (paths : List String)
    → placeholder_errors sources paths ≡ []
    → all (is_reachable sources) paths ≡ true
unfolding placeholder_errors path_exists
placeholder_errors_nil sources [] h = refl
placeholder_errors_nil sources (path ∷ paths) h = elim (Bool-cases (is_reachable sources path)) [
  | inl e ↦ ground (arith, placeholder_errors_nil sources paths)
  | inr e ↦ absurd (ground arith)
]

all_same :
    (p q : String → Bool) (xs : List String) → ((x : String) → p x ≡ q x) → all p xs ≡ all q xs
all_same p q [] h = refl
all_same p q (x ∷ xs) h = ground (arith, h x, all_same p q xs h)

-- A single source that reaches a path is one that resolves it.
one_source :
    (source : Fields) (path : String) → is_reachable (source ∷ []) path ≡ is_resolved source path
unfolding path_exists
one_source source path = ground (arith, path_exists_lem source path)

module _ (variables : Fields) where
  abbrev pub Substitutes : Value → Type 0
  Substitutes t = is_ok (substitute variables t) ≡ true

  collect_all_lem :
      (ts : List Value) (paths : List String)
      → all (is_resolved variables) (collect_all ts paths) ≡ true
      → (all (is_resolved variables) paths ≡ true) × All Substitutes ts
  unfolding collect_all
  collect_all_lem [] paths h = (h, tt)
  collect_all_lem (t ∷ ts) paths h =
      let (before, rest) = collect_all_lem ts (collect_placeholders t paths) h in
      let e = substitute-collect variables t paths in (ground arith, (ground arith, rest))

check_sources_lem :
    (schema : Value) (paths : List String) (r : Report) (defaults : Fields)
    → is_truthy schema ≡ true
    → schema_defaults schema ≡ done defaults
    → check_sources schema [] paths ≡ done r
    → r.errors ≡ []
    → all (is_resolved (source_of defaults)) paths ≡ true
unfolding placeholder_errors
check_sources_lem schema [] r defaults t d h g = refl
check_sources_lem schema (path ∷ paths) r defaults t d h g =
    let (defaults2, e, f) = run_bind (schema_defaults schema) _ r (sym (if_true _ t) ∙ h) in
    let same = same_of_done (sym e ∙ d) in
    let none_left = ap (λ (x : Report). x.errors) (same_of_done f) ∙ g in
    sym (
      all_same (is_reachable (source_of defaults ∷ [])) (is_resolved (source_of defaults))
        (path ∷ paths) (one_source (source_of defaults)))
    ∙ placeholder_errors_nil (source_of defaults ∷ []) (path ∷ paths)
        (subst (λ x. placeholder_errors (source_of x ∷ []) (path ∷ paths) ≡ []) same none_left)

schema_errors_nil :
    (schemas : Schemas) (schema : Value)
    → schema_errors schemas schema ≡ []
    → is_truthy schema ≡ true
unfolding is_truthy
schema_errors_nil schemas schema h = elim (Bool-cases (is_truthy schema)) [
  | inl e ↦ e
  | inr e ↦ absurd (ground arith)
]

exit_code_nil :
    (errors warnings : List String)
    → exit_code (record { errors = errors; warnings = warnings }) ≡ 0
    → errors ≡ []
exit_code_nil [] warnings h = refl
exit_code_nil (e ∷ errors) warnings h = absurd (omega arith)

module _ (disk : Disk) (schemas : Schemas) (known : List String) where
  check_scenario-Substitutes :
      (dir : String) (scenario : Value) (report : Report) (defaults : Fields)
      → has_directory disk (disk.join dir "fixtures") ≡ false
      → schema_defaults (schema_value disk schemas scenario) ≡ done defaults
      → check_scenario disk schemas known dir scenario ≡ done report
      → report.errors ≡ []
      → All (Substitutes (source_of defaults)) (templates_of (launch_value disk schemas scenario))
  unfolding check_scenario
  check_scenario-Substitutes dir scenario report defaults none_there d h g =
      let schema = schema_value disk schemas scenario in
      let launch = launch_value disk schemas scenario in
      let (fixtures, e1, h1) = run_bind (validate_fixtures disk schemas schema dir) _ report h in
      let (templates, e2, h2) = run_bind (check_templates disk schemas schema dir) _ report h1 in
      let (placeholders, e3, h3) =
        run_bind (check_sources schema fixtures.valid (collect_all (templates_of launch) [])) _
          report h2 in
      let (participants, e4, h4) =
        run_bind (items_of (property "participants" launch)) _ report h3 in
      let (agents, e5, h5) = run_bind (check_agents known participants) _ report h4 in
      let (commitments, e6, h6) = run_bind (items_of (property "commitments" launch)) _ report h5 in
      let (descriptions, e7, h7) = run_bind (check_commitments commitments) _ report h6 in
      let total = ap (λ (x : Report). x.errors) (same_of_done h7) ∙ g in
      let (first, more) =
        parts_nil (header_errors scenario ++ schema_errors schemas schema) _ total in
      let (headers, schemas_nil) =
        parts_nil (header_errors scenario) (schema_errors schemas schema) first in
      let (in_fixtures, more2) = parts_nil fixtures.report.errors _ more in
      let (in_templates, more3) = parts_nil templates.errors _ more2 in
      let (in_placeholders, more4) = parts_nil placeholders.errors _ more3 in
      let unread =
        same_of_done (sym (if_false _ (ap (λ b. b && is_truthy schema) none_there)) ∙ e1) in
      (collect_all_lem (source_of defaults) (templates_of launch) [] (
        check_sources_lem schema (collect_all (templates_of launch) []) placeholders defaults
          (schema_errors_nil schemas schema schemas_nil) d
          (subst
            (λ (x : FixtureReport).
              check_sources schema x.valid (collect_all (templates_of launch) [])
              ≡ done placeholders)
            (sym unread) e3)
          in_placeholders)).1

  -- Where a scenario without fixtures passes the validation, and the defaults of its schema can be
  -- read, these alone satisfy its placeholders: with them as the inputs, the substitution succeeds in
  -- `contextTemplate`, in `metadataTemplate`, in `kickoffTemplate` and in `commitments` of its launch.
  pub run_validate-Substitutes :
      (absolute : String → String) (target : String) (scenario : Value) (report : Report)
      (defaults : Fields)
      → exists disk (absolute (resolve_scenario_path disk schemas target)) ≡ true
      → load_yaml disk (absolute (resolve_scenario_path disk schemas target)) ≡ loaded scenario
      → has_directory disk (
          disk.join
            (disk.paths.directory (absolute (resolve_scenario_path disk schemas target)))
            "fixtures")
        ≡ false
      → schema_defaults (schema_value disk schemas scenario) ≡ done defaults
      → run_validate disk schemas known absolute target ≡ done report
      → exit_code report ≡ 0
      → let launch = property "launch" (property "spec" scenario) in
        let inputs = field "inputs" (obj defaults) end in
        Substitutes inputs (property "contextTemplate" launch)
        × Substitutes inputs (property "metadataTemplate" launch)
        × Substitutes inputs (property "kickoffTemplate" launch)
        × Substitutes inputs (property "commitments" launch)
  unfolding run_validate
  run_validate-Substitutes absolute target scenario report defaults there l none_there d h code =
      let path = absolute (resolve_scenario_path disk schemas target) in
      let (context, (metadata, (kickoff, (commitments, nothing_left)))) =
        check_scenario-Substitutes (disk.paths.directory path) scenario report defaults none_there d
          (ap (check_loaded disk schemas known (disk.paths.directory path)) (sym l)
            ∙ sym (if_true _ there)
            ∙ h)
          (exit_code_nil report.errors report.warnings code) in
      (context, metadata, kickoff, commitments)
