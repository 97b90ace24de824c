-- ===== src/Compiler/Settings.antt =====
-- What a scenario and a template of it say together: the first half of `compile` of
-- src/compiler/compiler.service.ts, and its private methods.
use examples_service.Common.{String, Option, none, some, if◌then◌else◌}
use examples_service.Common.Text.{truthy}
use examples_service.Js.{str, Fields, end, field, spread}
use examples_service.Registry.{
  RegistrySnapshot, ScenarioVersionFile, ScenarioTemplateFile, Overrides,
}
use examples_service.Registry.Index.{get_template}
use examples_service.Compiler.ScenarioRef.{ScenarioRefParts}
use examples_service.Compiler.Merge.{deep_merge}
use examples_service.Compiler.Outcome.{Outcome, returned, of_result, ◌>>=◌}

abbrev pub spread_over : Fields → Option Fields → Fields
spread_over base none = base
spread_over base (some over) = spread base over

abbrev pub merged_over : Fields → Option Fields → Fields
merged_over base none = base
merged_over base (some over) = deep_merge base over

abbrev pub override_of : (Overrides → Option Fields) → Option Overrides → Option Fields
override_of part none = none
override_of part (some overrides) = part overrides

abbrev pub merge_defaults : Fields → ScenarioTemplateFile → Fields
merge_defaults defaults template = spread_over defaults template.defaults

abbrev pub merge_runtime : Fields → ScenarioTemplateFile → Fields
merge_runtime runtime template =
    spread_over runtime (override_of (λ o. o.runtime) template.overrides)

abbrev pub merge_launch : Fields → ScenarioTemplateFile → Fields
merge_launch launch template = merged_over launch (override_of (λ o. o.launch) template.overrides)

abbrev pub merge_execution : Fields → ScenarioTemplateFile → Fields
merge_execution execution template =
    merged_over execution (override_of (λ o. o.execution) template.overrides)

-- What the scenario and the template say, together.
pub record Settings : Type 0 where
  pub defaults : Fields
  pub runtime : Fields
  pub launch : Fields
  pub execution : Fields

abbrev pub fields_or : Fields → Option Fields → Fields
fields_or otherwise none = otherwise
fields_or otherwise (some fs) = fs

abbrev pub settings_of : ScenarioVersionFile → Fields → Settings
settings_of scenario defaults = record {
  defaults = defaults;
  runtime = fields_or (field "kind" (str "rust") (field "version" (str "v1") end)) scenario.runtime;
  launch = scenario.launch;
  execution = fields_or end scenario.execution;
}

abbrev pub with_template : Settings → ScenarioTemplateFile → Settings
with_template s template = record {
  defaults = merge_defaults s.defaults template;
  runtime = merge_runtime s.runtime template;
  launch = merge_launch s.launch template;
  execution = merge_execution s.execution template;
}

-- `if (request.templateId)`
abbrev pub apply_template :
    RegistrySnapshot → ScenarioRefParts → Option String → Settings → Outcome Settings
apply_template snapshot ref none s = returned s
apply_template snapshot ref (some id) s =
    let template =
      of_result (get_template snapshot ref.pack_slug ref.scenario_slug ref.version id) in
    if truthy id then template >>= (λ t. returned (with_template s t)) else returned s
