-- ===== src/Scenario/Validate/Templates.antt =====
-- What `runValidate` says of the templates of a scenario.
use examples_service.Common.{String, ◌<>◌, ◌&&◌, Option, none, some, List, [], ◌∷◌, if◌then◌else◌}
use examples_service.Js.{Value, str, arr, obj, Fields, spread, is_truthy, to_text, get}
use examples_service.Compiler.Outcome.{property}
use examples_service.Registry.Includes.{Load, out_of_fuel, thrown, failed, loaded}
use examples_service.Registry.Disk.{Disk, listing, is_yaml, ends_with, load_yaml}
use examples_service.Registry.Loader.{is_exactly}
use examples_service.Scenario.Ending.{Run, ill_typed, done, ◌>>=◌, schema_defaults}
use examples_service.Scenario.Ending
use examples_service.Scenario.Report.{
  Report, Schemas, no_findings, error, warning, append, has_directory,
}

abbrev load_failure : String → String → Run Report
load_failure file reason = done (error ("templates/" <> file <> " load failed: " <> reason))

abbrev kind_warning : String → Value → Report
kind_warning file template =
    if is_exactly (property "kind" template) "ScenarioTemplate"
    then no_findings
    else warning (
        "templates/"
        <> file
        <> " kind is \""
        <> to_text (property "kind" template)
        <> "\", expected \"ScenarioTemplate\"")

-- `{ ...defaults, ...(template.spec.defaults ?? {}) }`
abbrev over_defaults : Fields → Value → Run Fields
over_defaults defaults (obj more) = done (spread defaults more)
over_defaults defaults (arr more) = ill_typed
over_defaults defaults (str more) = ill_typed
over_defaults defaults v = done defaults

abbrev faults_of : String → Option String → Report
faults_of file none = no_findings
faults_of file (some text) = warning ("templates/" <> file <> " defaults fail schema: " <> text)

abbrev overrides_launch : Value → Value
overrides_launch template = property "launch" (property "overrides" (property "spec" template))

abbrev commitments_warning : String → Value → Report
commitments_warning file (arr items) = warning (
    "templates/" <> file
    <> " overrides commitments — note arrays REPLACE entirely (not merged element-wise)")
commitments_warning file v = no_findings

-- The `catch` keeps the warning about the kind.
abbrev check_compiled : Schemas → Value → String → Value → Fields → Option String → Run Report
check_compiled schemas schema file template merged (some reason) = load_failure file reason
check_compiled schemas schema file template merged none = done (
    append (faults_of file (schemas.faults schema merged))
      (commitments_warning file (property "commitments" (overrides_launch template))))

abbrev check_defaults : Schemas → Value → String → Value → Run Report
check_defaults schemas schema file template = do
  defaults ← schema_defaults schema
  merged ← over_defaults defaults (property "defaults" (property "spec" template))
  check_compiled schemas schema file template merged (schemas.compile_fault schema)

abbrev check_template : Schemas → Value → String → Load Value → Run Report
check_template schemas schema file out_of_fuel = Ending.out_of_fuel
check_template schemas schema file (thrown e) = load_failure file e.message
check_template schemas schema file (failed reason) = load_failure file reason
check_template schemas schema file (loaded template) =
    (if is_truthy (overrides_launch template) && is_truthy schema
      then check_defaults schemas schema file template
      else done (commitments_warning file (property "commitments" (overrides_launch template))))
    >>= λ more. done (append (kind_warning file template) more)

module _ (disk : Disk) (schemas : Schemas) (schema : Value) where
  unfoldable pub check_files : String → List String → Run Report
  unfolding load_yaml schema_defaults spread is_truthy to_text get ends_with
  check_files dir [] = done no_findings
  check_files dir (file ∷ files) = do
    report ←
        (if is_yaml file
          then check_template schemas schema file (load_yaml disk (disk.join dir file))
          else done no_findings)
    more ← check_files dir files
    done (append report more)

  unfoldable pub check_templates : String → Run Report
  unfolding check_files
  check_templates scenario_dir =
      let dir = disk.join scenario_dir "templates" in
      if has_directory disk dir then check_files dir (listing disk dir) else done no_findings
