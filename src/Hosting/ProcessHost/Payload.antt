-- ===== src/Hosting/ProcessHost/Payload.antt =====
-- `buildBootstrapPayload` and `deriveScopes`: what an agent is told, and what its token allows.
use examples_service.Common.{String, Bool, false, Option, none, some}
use examples_service.Common.{◌==◌, string_eq, if◌then◌else◌}
use examples_service.Common.Dict.{lookup}
use examples_service.Js.{Value, str, bool, arr, nil, cons, Fields, end, field, put}
use examples_service.Config.{AppConfig}
use examples_service.Contracts.{
  ExampleAgentDefinition, ParticipantAgentBinding, ExampleAgentRunContext, InitiatorPayload,
  StartPayload, KickoffPayload,
}
use examples_service.Hosting.Contracts.{BootstrapPayload, Initiator, SessionStart, Kickoff}
use examples_service.Auth.Scopes.{merge_scopes, merge_fields, drop_key}
use examples_service.Hosting.ProcessHost.Port.{allocate_cancel_callback}

-- `value === text`
abbrev pub is_same_text : Value → String → Bool
is_same_text (str s) t = s == t
is_same_text v t = false

abbrev pub initiates : Option InitiatorPayload → String → Bool
initiates none participant = false
initiates (some i) participant = is_same_text i.participant_id participant

abbrev pub is_initiator : ExampleAgentRunContext → ParticipantAgentBinding → Bool
is_initiator context binding = initiates context.initiator binding.participant_id

abbrev start_of : StartPayload → SessionStart
start_of s = record {
  intent = s.intent;
  participants = s.participants;
  ttl_ms = s.ttl_ms;
  mode_version = s.mode_version;
  configuration_version = s.configuration_version;
  policy_version = s.policy_version;
  context = s.context;
  context_id = s.context_id;
  extensions = s.extensions;
  roots = s.roots;
}

abbrev kickoff_of : Option KickoffPayload → Option Kickoff
kickoff_of none = none
kickoff_of (some k) =
    some
      (record { message_type = k.message_type; payload_type = k.payload_type; payload = k.payload })

abbrev pub initiator_of : Bool → Option InitiatorPayload → Option Initiator
initiator_of is_initiator none = none
initiator_of is_initiator (some i) =
    if is_initiator
    then some (record { session_start = start_of i.session_start; kickoff = kickoff_of i.kickoff })
    else none

-- The payload, once the token is there.
unfoldable pub build_bootstrap_payload :
    AppConfig
    → ExampleAgentDefinition
    → ParticipantAgentBinding
    → ExampleAgentRunContext
    → String
    → BootstrapPayload
unfolding allocate_cancel_callback
build_bootstrap_payload config definition binding context token = record {
  participant_id = binding.participant_id;
  session_id = some context.session_id;
  mode = context.mode_name;
  runtime_url = some config.runtime_address;
  auth_token = some token;
  agent_id = none;
  secure = some config.runtime_tls;
  allow_insecure = some config.runtime_allow_insecure;
  participants = some context.participants;
  mode_version = context.mode_version;
  configuration_version = context.configuration_version;
  policy_version = context.policy_version;
  initiator = initiator_of (is_initiator context binding) context.initiator;
  cancel_callback = allocate_cancel_callback config binding.participant_id context.run_id;
  metadata = some (record {
    run_id = some context.run_id;
    trace_id = context.trace_id;
    scenario_ref = some context.scenario_ref;
    role = some binding.role;
    framework = some definition.framework;
    agent_ref = some definition.agent_ref;
    policy_hints = context.policy_hints;
    session_context = context.session_context;
  });
}

abbrev pub base_scopes : ExampleAgentRunContext → Bool → Fields
base_scopes context is_initiator = field "can_start_sessions" (bool is_initiator) (
    field "is_observer" (bool false)
      (field "allowed_modes" (arr (cons context.mode_name (cons (str "") nil))) end))

unfoldable pub derive_scopes : AppConfig → String → ExampleAgentRunContext → Bool → Fields
unfolding merge_fields put drop_key lookup
derive_scopes config sender context is_initiator =
    merge_scopes (base_scopes context is_initiator) (lookup sender config.auth_scope_overrides)
