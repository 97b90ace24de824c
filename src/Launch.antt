-- ===== src/Launch.antt =====
-- `getLaunchSchema` of src/launch/launch.service.ts: the form of a launch.
pub mod Laws
mod Tests
use examples_service.Common.{String, ◌<>◌, Option, none, some, List, if◌then◌else◌}
use examples_service.Common.Text.{truthy}
use examples_service.Common.Dict.{Dict}
use examples_service.Js.{Value, str, Fields, end, field, get, spread}
use examples_service.Registry.{
  RegistrySnapshot, ScenarioVersionFile, ScenarioTemplateFile, Overrides, Outputs,
}
use examples_service.Registry.Index.{get_scenario_version, get_template}
use examples_service.Contracts.{
  ExampleAgentDefinition, ExampleAgentSummary, ParticipantAgentBinding,
}
use examples_service.Agents.{summarize_participants}
use examples_service.Compiler.Merge.{extract_schema_defaults, deep_merge}
use examples_service.Compiler.Settings.{spread_over, merged_over, override_of, fields_or}
use examples_service.Compiler.Outcome.{Outcome, returned, of_result, of_option, ◌>>=◌, bindings_of}

pub record LaunchSummary : Type 0 where
  pub mode_name : Value
  pub mode_version : Value
  pub configuration_version : Value
  pub policy_version : Value
  pub policy_hints : Value
  pub ttl_ms : Value
  pub initiator_participant_id : Value

pub record LaunchSchemaResponse : Type 0 where
  pub scenario_ref : String
  pub template_id : Option String
  pub form_schema : Fields
  pub defaults : Fields
  pub participants : List ParticipantAgentBinding
  pub agents : List ExampleAgentSummary
  pub runtime : Fields
  pub launch_summary : LaunchSummary
  pub expected_decision_kinds : Option (List String)

-- The variables of the function.
pub record Local : Type 0 where
  pub template_id : Option String
  pub resolved_defaults : Fields
  pub launch : Fields
  pub runtime : Fields

abbrev pub local_of : ScenarioVersionFile → Fields → Local
local_of scenario defaults = record {
  template_id = none;
  resolved_defaults = defaults;
  launch = scenario.launch;
  runtime = fields_or (field "kind" (str "rust") (field "version" (str "v1") end)) scenario.runtime;
}

abbrev pub override : Local → ScenarioTemplateFile → Local
override l template = record {
  template_id = some template.slug;
  resolved_defaults = spread_over l.resolved_defaults template.defaults;
  launch = merged_over l.launch (override_of (λ o. o.launch) template.overrides);
  runtime = spread_over l.runtime (override_of (λ o. o.runtime) template.overrides);
}

-- `if (templateSlug)`
abbrev pub choose_template :
    RegistrySnapshot → String → String → String → Option String → Local → Outcome Local
choose_template snapshot pack scenario version none l = returned l
choose_template snapshot pack scenario version (some slug) l =
    let found = of_result (get_template snapshot pack scenario version slug) in
    if truthy slug then found >>= (λ t. returned (override l t)) else returned l

abbrev expected_of : Option Outputs → Option (List String)
expected_of none = none
expected_of (some outputs) = outputs.expected_decision_kinds

abbrev summary_of_launch : Fields → LaunchSummary
summary_of_launch launch = record {
  mode_name = get "modeName" launch;
  mode_version = get "modeVersion" launch;
  configuration_version = get "configurationVersion" launch;
  policy_version = get "policyVersion" launch;
  policy_hints = get "policyHints" launch;
  ttl_ms = get "ttlMs" launch;
  initiator_participant_id = get "initiatorParticipantId" launch;
}

abbrev pub response :
    String
    → ScenarioVersionFile
    → Local
    → List ParticipantAgentBinding
    → List ExampleAgentSummary
    → LaunchSchemaResponse
response scenario_ref scenario l participants agents = record {
  scenario_ref = scenario_ref;
  template_id = l.template_id;
  form_schema = scenario.schema;
  defaults = l.resolved_defaults;
  participants = participants;
  agents = agents;
  runtime = l.runtime;
  launch_summary = summary_of_launch l.launch;
  expected_decision_kinds = expected_of scenario.outputs;
}

-- The two reads of the registry may see different snapshots.
unfoldable pub get_launch_schema :
    Dict ExampleAgentDefinition
    → RegistrySnapshot
    → RegistrySnapshot
    → String
    → String
    → String
    → Option String
    → Outcome LaunchSchemaResponse
unfolding get spread
get_launch_schema catalog snapshot later pack scenario_slug version template = do
  scenario ← of_result (get_scenario_version snapshot pack scenario_slug version)
  defaults ← of_option (extract_schema_defaults scenario.schema)
  l ← choose_template later pack scenario_slug version template (local_of scenario defaults)
  participants ← bindings_of (get "participants" l.launch)
  agents ← of_result (summarize_participants catalog participants)
  returned
      (response (pack <> "/" <> scenario_slug <> "@" <> version) scenario l participants agents)
