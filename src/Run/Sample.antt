-- ===== src/Run/Sample.antt =====
-- Settings, an agent and a launch that is compiled, for the tests of what reads them.
use examples_service.Common.{none, some, [], ◌∷◌, true, false}
use examples_service.Common.Dict.{Dict}
use examples_service.Js.{undefined, num, str, end, field}
use examples_service.Config.{AppConfig}
use examples_service.Contracts.{ExampleAgentDefinition}
use examples_service.Compiler.Compile.Contracts.{CompileLaunchResult}

abbrev pub agent : ExampleAgentDefinition
agent = record {
  agent_ref = "fraud-agent";
  name = "Fraud Agent";
  role = "analyst";
  description = none;
  framework = "langgraph";
  supported_scenario_refs = none;
  bootstrap = record {
    strategy = "external";
    entrypoint = "main.py";
    transport_identity = "agent://fraud-agent";
    mode = "attached";
    launcher = none;
    args = none;
    env = none;
    notes = none;
  };
  manifest = none;
  metadata = none;
  tags = none;
}

abbrev pub catalog : Dict ExampleAgentDefinition
catalog = ("fraud-agent", agent) ∷ []

abbrev pub compiled : CompileLaunchResult
compiled = record {
  run_descriptor = record {
    mode = "sandbox";
    runtime_kind = str "rust";
    runtime_version = str "v1";
    session = record {
      session_id = "s1";
      mode_name = str "decision";
      mode_version = undefined;
      configuration_version = undefined;
      policy_version = undefined;
      ttl_ms = num "2000";
      participants = "fraud" ∷ [];
      metadata = field "source" (str "macp-playground") (
          field "sourceRef" (str "fraud/check@1.0.0") (
            field "scenarioRef" (str "fraud/check@1.0.0")
              (field "templateId" (str "large") (field "environment" (str "development") end))));
    };
    execution = record {
      idempotency_key = undefined;
      tags = "example" ∷ "fraud" ∷ "check" ∷ "demo" ∷ [];
      actor_id = str "macp-playground";
      actor_type = str "service";
    };
  };
  initiator = some (record {
    participant_id = str "fraud";
    session_start = record {
      intent = "fraud/check";
      participants = "fraud" ∷ [];
      ttl_ms = num "2000";
      mode_version = undefined;
      configuration_version = undefined;
      policy_version = undefined;
      context = undefined;
      context_id = undefined;
      extensions = undefined;
      roots = undefined;
    };
    kickoff = none;
  });
  session_id = "s1";
  mode = "sandbox";
  policy_hints = undefined;
  session_context = undefined;
  initiator_participant_id = str "fraud";
  title = "Check";
  scenario_ref = "fraud/check@1.0.0";
  template_id = some "large";
  expected_decision_kinds = none;
  participant_bindings =
      record { participant_id = "fraud"; role = "fraud"; agent_ref = "fraud-agent" } ∷ [];
}

abbrev pub config : AppConfig
config = record {
  node_env = "development";
  is_development = true;
  port = 3000;
  host = "0.0.0.0";
  cors_origins = [];
  packs_dir = "./packs";
  registry_cache_ttl_ms = 0;
  auth_api_keys = [];
  log_level = "info";
  auto_bootstrap_example_agents = true;
  register_policies_on_launch = true;
  example_agent_python_path = "python3";
  example_agent_node_path = "node";
  runtime_address = "runtime:50051";
  runtime_tls = true;
  runtime_allow_insecure = false;
  cancel_callback_host = "127.0.0.1";
  cancel_callback_port_base = 9000;
  cancel_callback_path = "/agent/cancel";
  auth_service_url = "http://auth";
  auth_service_timeout_ms = 5000;
  auth_token_ttl_seconds = 3600;
  auth_scope_overrides = [];
}
