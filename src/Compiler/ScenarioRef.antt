-- ===== src/Compiler/ScenarioRef.antt =====
-- `parseScenarioRef` of src/compiler/template-resolver.ts, and the references that it reads.
pub mod Laws
use examples_service.Common.{String, ◌<>◌, Bool, true, false, ◌||◌, not, Option, none, some}
use examples_service.Common.{if◌then◌else◌}
use examples_service.Common.Text.{truthy, cut_first, cut_last}
use examples_service.Errors.{Result, ok, err, app_exception, invalid_scenario_ref, bad_request}

pub record ScenarioRefParts : Type 0 where
  pub pack_slug : String
  pub scenario_slug : String
  pub version : String

abbrev quoted : String → String → String
quoted message ref = "invalid scenarioRef: " <> message <> " in \"" <> ref <> "\""

abbrev pub invalid : String → String → Result ScenarioRefParts
invalid message ref = err (app_exception invalid_scenario_ref (quoted message ref) bad_request)

-- The test for empty components.
pub checked : String → String → String → String → Result ScenarioRefParts
checked ref pack scenario version =
    if not (truthy pack) || not (truthy scenario) || not (truthy version)
    then invalid "empty component" ref
    else ok (record { pack_slug = pack; scenario_slug = scenario; version = version })

-- The path, cut at its first slash, or not.
abbrev pub parse_path : String → String → Option (String × String) → Result ScenarioRefParts
parse_path ref version none = invalid "missing '/'" ref
parse_path ref version (some (pack, scenario)) = checked ref pack scenario version

-- The reference, cut at its last at-sign, or not.
abbrev pub parse_ref : String → Option (String × String) → Result ScenarioRefParts
parse_ref ref none = invalid "missing '@'" ref
parse_ref ref (some (path, version)) = parse_path ref version (cut_first "/" path)

unfoldable pub parse_scenario_ref : String → Result ScenarioRefParts
unfolding checked
parse_scenario_ref ref = parse_ref ref (cut_last "@" ref)

-- `${packSlug}/${scenarioSlug}@${version}`, as the launch service and the agent profiles write it
abbrev pub scenario_ref : ScenarioRefParts → String
scenario_ref r = r.pack_slug <> ("/" <> (r.scenario_slug <> ("@" <> r.version)))
