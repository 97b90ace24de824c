-- ===== src/Compiler/Compile.antt =====
-- `compile` of src/compiler/compiler.service.ts: from a request and the registry to what is launched.
-- The two reads of the registry may see different snapshots; the check of the inputs against the
-- schema, the session id and NODE_ENV are parameters.
mod Gathered
pub mod Contracts
pub mod Laws
mod Tests
unfoldable pub use Gathered.*
use examples_service.Common.{
  ℕ, String, ◌<>◌, Bool, true, false, Option, none, some, List, [], ◌∷◌, ◌++◌, map, ◌==◌, string_eq,
  if◌then◌else◌, contains,
}
use examples_service.Common.Text.{truthy}
use examples_service.Js.{
  Value, undefined, null, str, num, arr, obj, Items, nil, cons, Fields, end, field, get, spread,
  is_truthy, to_text,
}
use examples_service.Errors.{AppException, Result, ok, err, validation_error, bad_request}
use examples_service.Registry.{
  RegistrySnapshot, ScenarioVersionFile, ScenarioTemplateFile, Overrides, Outputs,
}
use examples_service.Registry.Index.{get_scenario_version, get_template}
use examples_service.Contracts.{
  ParticipantAgentBinding, InitiatorPayload, KickoffPayload, StartPayload,
}
use examples_service.Compiler.Outcome.{
  Outcome, ill_typed, thrown, returned, of_result, of_option, ◌>>=◌, coalesce, property, first,
  is_text, fields_of, bindings_of, texts_of, unique,
}
use examples_service.Compiler.Settings.{Settings, settings_of, apply_template}
use examples_service.Compiler.ScenarioRef.{ScenarioRefParts, parse_scenario_ref}
use examples_service.Compiler.Merge.{extract_schema_defaults, deep_merge}
use examples_service.Compiler.Substitute.{substitute}
use examples_service.Compiler.Compile.Contracts.{
  CompileLaunchRequest, CompileLaunchResult, RunDescriptor, Session, Execution,
}

-- How the library checks the inputs: the schema itself is refused, the inputs are, or they pass.
pub data Check : Type 0 where
  bad_schema : Check
  refused : Value → Check
  passed : Check

pub record Environment : Type 0 where
  pub validate : Fields → Fields → Check
  pub session_id : String
  pub node_env : Option String

abbrev pub validate_inputs : Check → Outcome {0} Unit
validate_inputs bad_schema = ill_typed
validate_inputs passed = returned tt
validate_inputs (refused errors) = thrown (record {
  error_code = validation_error;
  message = "Input validation failed";
  http_status = bad_request;
  metadata = some (field "errors" errors end);
})

module _ (env : Environment) (request : CompileLaunchRequest) where
  abbrev pub session_of : Parts → Session
  session_of p =
      let launch = p.settings.launch in
      record {
        session_id = env.session_id;
        mode_name = get "modeName" launch;
        mode_version = get "modeVersion" launch;
        configuration_version = get "configurationVersion" launch;
        policy_version = get "policyVersion" launch;
        ttl_ms = get "ttlMs" launch;
        participants = ids_of p.bindings;
        metadata =
            spread
              (field "source" (str "macp-playground") (
                field "sourceRef" (str request.scenario_ref) (
                  field "scenarioRef" (str request.scenario_ref) (
                    field "templateId" (str (text_or "default" request.template_id))
                      (field "environment" (str (text_or "development" env.node_env)) end)))))
              p.metadata;
      }

  abbrev pub descriptor_of : Parts → RunDescriptor
  descriptor_of p =
      let execution = p.settings.execution in
      let requester = get "requester" execution in
      record {
        mode = text_or "sandbox" request.mode;
        runtime_kind = get "kind" p.settings.runtime;
        runtime_version = get "version" p.settings.runtime;
        session = session_of p;
        execution = record {
          idempotency_key = get "idempotencyKey" execution;
          tags = tags_of p;
          actor_id = coalesce (property "actorId" requester) (str "macp-playground");
          actor_type = coalesce (property "actorType" requester) (str "service");
        };
      }

  abbrev pub result_of : Parts → CompileLaunchResult
  result_of p = record {
    session_id = env.session_id;
    mode = text_or "sandbox" request.mode;
    initiator = initiator_of p;
    run_descriptor = descriptor_of p;
    policy_hints = get "policyHints" p.settings.launch;
    session_context = p.context;
    initiator_participant_id = initiator_id p;
    title = p.scenario.metadata.name;
    scenario_ref = request.scenario_ref;
    template_id = request.template_id;
    expected_decision_kinds = expected_kinds p.scenario.outputs;
    participant_bindings = p.bindings;
  }

  -- `{ ...resolvedDefaults, ...request.inputs }`
  abbrev pub merged_inputs : Settings → Fields
  merged_inputs s = spread s.defaults request.inputs

  abbrev pub parts_of : ScenarioRefParts → ScenarioVersionFile → Settings → Outcome Parts
  parts_of ref scenario s =
      let variables = field "inputs" (obj (merged_inputs s)) end in
      do
        checked ← validate_inputs (env.validate scenario.schema (merged_inputs s))
        context ← substitute_if variables undefined (get "contextTemplate" s.launch)
        metadata ← substitute_if variables (obj end) (get "metadataTemplate" s.launch)
        kickoff ← substitute_if variables undefined (get "kickoffTemplate" s.launch)
        bindings ← bindings_of (get "participants" s.launch)
        tags ← texts_of (get "tags" s.execution)
        metadata_fields ← fields_of metadata
        returned (record {
          ref = ref;
          scenario = scenario;
          settings = s;
          context = context;
          metadata = metadata_fields;
          kickoff = kickoff;
          bindings = bindings;
          execution_tags = tags;
        })

  unfoldable pub settings_for :
      RegistrySnapshot
      → RegistrySnapshot
      → Outcome (ScenarioRefParts × ScenarioVersionFile × Settings)
  settings_for snapshot later = do
    ref ← of_result (parse_scenario_ref request.scenario_ref)
    scenario ← of_result (get_scenario_version snapshot ref.pack_slug ref.scenario_slug ref.version)
    defaults ← of_option (extract_schema_defaults scenario.schema)
    settings ← apply_template later ref request.template_id (settings_of scenario defaults)
    returned (ref, scenario, settings)

  unfoldable pub compile : RegistrySnapshot → RegistrySnapshot → Outcome CompileLaunchResult
  unfolding is_truthy get spread to_text substitute
  compile snapshot later = do
    (ref, scenario, settings) ← settings_for snapshot later
    parts ← parts_of ref scenario settings
    returned (result_of parts)
