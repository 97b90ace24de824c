-- ===== src/Scenario/Validate.antt =====
-- `runValidate` of scripts/scenario/validate.ts. The library of JSON Schema is a parameter.
pub mod Templates
pub mod Checks
pub mod Fixtures
pub mod Printed
pub mod Laws
mod Tests
use examples_service.Common.{
  ℕ, String, ◌<>◌, Bool, true, false, not, ◌&&◌, ◌||◌, Option, none, some, List, [], ◌∷◌, ◌++◌, map,
  any, length, ◌⊎◌, inl, inr, if◌then◌else◌,
}
use examples_service.Common.Text.{truthy, show_ℕ}
use examples_service.Common.Words.{trim}
use examples_service.Js.{
  Value, undefined, null, str, arr, obj, bool, num, Items, nil, cons, Fields, end, field, get,
  spread, is_truthy, to_text,
}
use examples_service.Compiler.Outcome.{property}
use examples_service.Registry.Includes.{
  File, absent, unreadable, readable, Load, out_of_fuel, thrown, failed, loaded,
}
use examples_service.Registry.Disk.{Disk, exists, listing, ends_with, load_yaml}
use examples_service.Registry.Loader.{is_exactly, api_version}
use examples_service.Scenario.Ending.{
  Run, ill_typed, crashed, done, ◌>>=◌, items_of, read, schema_defaults, is_known,
}
use examples_service.Scenario.Placeholders.{collect_placeholders, path_exists}
use examples_service.Scenario.Report.{
  Report, Schemas, no_findings, append, error, warning, has_directory,
}
use examples_service.Scenario.Validate.Templates.{check_templates}
use examples_service.Scenario.Ending
use examples_service.Scenario.Validate.Checks.{
  header_errors, schema_errors, is_reachable, placeholder_errors, source_of, templates_of,
  collect_all, check_sources, check_agents, lacks_description, check_commitments,
}
use examples_service.Scenario.Validate.Fixtures.{
  FixtureReport, no_fixtures, check_fixtures, fixtures_of, validate_fixtures,
}

module _ (disk : Disk) (schemas : Schemas) where
  abbrev pub launch_value : Value → Value
  launch_value scenario = property "launch" (property "spec" scenario)

  abbrev pub schema_value : Value → Value
  schema_value scenario = property "schema" (property "inputs" (property "spec" scenario))

  abbrev errors_only : List String → Report
  errors_only messages = record { errors = messages; warnings = [] }

  -- All checks of a scenario that has been loaded, in their order; `known` has the references of the
  -- catalog of agents.
  unfoldable pub check_scenario : List String → String → Value → Run Report
  unfolding get is_truthy to_text check_fixtures check_templates collect_all placeholder_errors
      check_agents check_commitments schema_defaults
  check_scenario known dir scenario = do
    let schema = schema_value scenario
    let launch = launch_value scenario
    fixtures ← validate_fixtures disk schemas schema dir
    templates ← check_templates disk schemas schema dir
    placeholders ← check_sources schema fixtures.valid (collect_all (templates_of launch) [])
    participants ← items_of (property "participants" launch)
    agents ← check_agents known participants
    commitments ← items_of (property "commitments" launch)
    descriptions ← check_commitments commitments
    done (
        append (errors_only (header_errors scenario ++ schema_errors schemas schema)) (
          append fixtures.report
            (append templates (append placeholders (append agents descriptions)))))

  abbrev pub check_loaded : List String → String → Load Value → Run Report
  check_loaded known dir out_of_fuel = Ending.out_of_fuel
  check_loaded known dir (thrown e) = done (error ("load failed: " <> e.message))
  check_loaded known dir (failed reason) = done (error ("load failed: " <> reason))
  check_loaded known dir (loaded scenario) = check_scenario known dir scenario

  -- `resolveScenarioPath`
  abbrev pub resolve_scenario_path : String → String
  resolve_scenario_path target =
      if has_directory disk target then disk.join target "scenario.yaml" else target

  -- `absolute` is `path.resolve`.
  unfoldable pub run_validate : List String → (String → String) → String → Run Report
  unfolding load_yaml check_scenario
  run_validate known absolute target =
      let path = absolute (resolve_scenario_path target) in
      if exists disk path
      then check_loaded known (disk.paths.directory path) (load_yaml disk path)
      else done (error ("scenario file not found: " <> path))

abbrev exit_of : List String → ℕ
exit_of [] = 0
exit_of (e ∷ errors) = 1

abbrev pub exit_code : Report → ℕ
exit_code report = exit_of report.errors
