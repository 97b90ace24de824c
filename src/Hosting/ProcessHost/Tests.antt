-- ===== src/Hosting/ProcessHost/Tests.antt =====
-- The theorems of the adapters and of the process host at concrete inputs: the fraud agent of the
-- catalog with its manifest.
use examples_service.Run.Sample.{config}
use examples_service.Common.{
  ℕ, String, ◌≡◌, ◌≢◌, refl, true, false, none, some, List, [], ◌∷◌, ◌++◌, ◌+◌, ◌<◌, ◌<>◌, ◌↔◌,
  arith,
}
use examples_service.Common.Dict.{Dict, lookup}
use examples_service.Common.Text.{codes}
use examples_service.Js.{str, bool, num, undefined, end, field, get}
use examples_service.Common.Words.{before_suffix}
use examples_service.Contracts.{
  ExampleAgentDefinition, ParticipantAgentBinding, ExampleAgentRunContext, HostedExampleAgent,
  InitiatorPayload,
}
use examples_service.Hosting.Contracts.{AgentManifest, BootstrapPayload}
use examples_service.Hosting.Adapters.{build_agent_env}
use examples_service.Hosting.Adapters.Launches.{
  Process, resolve_entrypoint, prepare_langgraph, python_env,
}
use examples_service.Hosting.Adapters.Checks.{validate_langgraph}
use examples_service.Hosting.AdapterRegistry.{registered, validate, langgraph, get_adapter}
use examples_service.Hosting.AdapterRegistry.Accepted.{IsAcceptable, validate_valid_iff}
use examples_service.Hosting.AdapterRegistry.Laws.{prepare-env}
use examples_service.Hosting.Supervisor.{
  PreparedLaunch, Launch, State, initial, launch, spawn, get_entry, make_key, Event, launched,
  startup_elapsed, run,
}
use examples_service.Hosting.Supervisor.Repeated.{launch-once}
use examples_service.Common.Text.{code_units}
use examples_service.Common.Integer.{pos}
use examples_service.Hosting.ProcessHost.Port.{next_cancel_callback_port, next_port-bounds, IsExact}
use examples_service.Hosting.ProcessHost.Payload.{
  build_bootstrap_payload, derive_scopes, is_initiator,
}
use examples_service.Hosting.ProcessHost.Starting.{Spawning, launch_via_adapter}
use examples_service.Hosting.ProcessHost.Laws.{build_bootstrap-initiator, is_some}
use examples_service.Hosting.ProcessHost.Launched.{launch_via_adapter-told, IsToldOf}

abbrev manifest : AgentManifest
manifest = record {
  id = "fraud-agent";
  name = "Fraud Agent";
  framework = some "langgraph";
  version = some "1.0.0";
  entrypoint = some (record { type = "python_file"; value = "main.py" });
  host = some (record {
    python = some "python3";
    node = none;
    env = some (("MACP_RUNTIME_TOKEN", "stolen") ∷ []);
    args = none;
    cwd = some ".";
    requirements_file = none;
    install = none;
    startup_timeout_ms = some 30000;
    health_timeout_ms = none;
  });
  macp = none;
  framework_config = some (
      field "graphFactory" (str "build_graph")
        (field "inputMapper" (str "to_state") (field "outputMapper" (str "to_messages") end)));
}

abbrev process : Process
process = record {
  env = ("MACP_SESSION_ID", "old") ∷ [];
  cwd = "/srv";
  exec_path = "/usr/bin/node";
  file_exists = λ cwd path. false;
}

abbrev definition : ExampleAgentDefinition
definition = record {
  agent_ref = "fraud-agent";
  name = "Fraud Agent";
  role = "fraud";
  description = none;
  framework = "langgraph";
  supported_scenario_refs = none;
  bootstrap = record {
    strategy = "external";
    entrypoint = "main.py";
    transport_identity = "agent://fraud-agent";
    mode = "attached";
    launcher = some "python";
    args = none;
    env = none;
    notes = none;
  };
  manifest = some manifest;
  metadata = none;
  tags = none;
}

abbrev binding : ParticipantAgentBinding
binding = record { participant_id = "fraud"; role = "fraud"; agent_ref = "fraud-agent" }

abbrev starter : InitiatorPayload
starter = record {
  participant_id = str "fraud";
  session_start = record {
    intent = "check";
    participants = "fraud" ∷ [];
    ttl_ms = num "1000";
    mode_version = str "1";
    configuration_version = str "1";
    policy_version = undefined;
    context = undefined;
    context_id = undefined;
    extensions = undefined;
    roots = undefined;
  };
  kickoff = none;
}

abbrev context : ExampleAgentRunContext
context = record {
  run_id = "r1";
  session_id = "s1";
  trace_id = none;
  scenario_ref = "fraud/x@1";
  mode_name = str "decision";
  mode_version = str "1";
  configuration_version = str "1";
  policy_version = undefined;
  policy_hints = undefined;
  ttl_ms = num "1000";
  session_context = undefined;
  participants = "fraud" ∷ [];
  initiator_participant_id = str "fraud";
  initiator = some starter;
}

abbrev spawning : Spawning
spawning = record { path = "/tmp/b.json"; pid = some 7; now = "now" }

validate_valid_iff_example : ((validate registered manifest).valid ≡ true) ↔ IsAcceptable manifest
validate_valid_iff_example = validate_valid_iff manifest

accepted : (validate registered manifest).valid ≡ true
unfolding validate registered lookup validate_langgraph get
accepted = refl

abbrev payload : BootstrapPayload
payload = build_bootstrap_payload config definition binding context "tok"

found : get_adapter registered "langgraph" ≡ some langgraph
unfolding lookup registered
found = refl

abbrev prepared : PreparedLaunch
prepared = record {
  command = "python3";
  args = "main.py" ∷ [];
  env = python_env process payload "langgraph" manifest "main.py";
  cwd = ".";
  startup_timeout_ms = 30000;
}

ready : prepare_langgraph process manifest payload ≡ some prepared
unfolding prepare_langgraph
ready = refl

token_there : lookup "MACP_RUNTIME_TOKEN" (build_agent_env payload "langgraph") ≡ some "tok"
unfolding lookup build_bootstrap_payload
token_there = refl

prepare-env_example : lookup "MACP_RUNTIME_TOKEN" prepared.env ≡ some "tok"
prepare-env_example =
    prepare-env process manifest payload "langgraph" "MACP_RUNTIME_TOKEN" "tok" langgraph prepared
      found ready token_there

next_port-bounds_example :
    (offset : ℕ) × (next_cancel_callback_port 9000 "r1" "fraud" ≡ pos (9000 + offset))
    × (offset < 1024)
    × IsExact (pos 0) (code_units (codes ("r1" <> ":" <> "fraud")))
next_port-bounds_example = next_port-bounds 9000 "r1" "fraud"

-- Two participants of one run can be given the same port.
collision : next_cancel_callback_port 9000 "run" "Aa" ≡ next_cancel_callback_port 9000 "run" "BB"
unfolding next_cancel_callback_port
collision = refl

build_bootstrap-initiator_example :
    ((is_some payload.initiator ≡ true)
      ↔ ((i : InitiatorPayload) × (context.initiator ≡ some i) × (i.participant_id ≡ str "fraud")))
    × (lookup "fraud" config.auth_scope_overrides ≡ none
        → get "can_start_sessions"
            (derive_scopes config "fraud" context (is_initiator context binding))
          ≡ bool (is_some payload.initiator))
build_bootstrap-initiator_example =
    build_bootstrap-initiator config definition binding context "tok"

idle : get_entry (make_key "r1" "fraud") initial ≡ none
unfolding lookup
idle = refl

launch_via_adapter-told_example :
    (t : State) × (hosted : HostedExampleAgent) × (launch_via_adapter config registered process
        definition binding context langgraph manifest "tok" spawning initial
      ≡ some (t, hosted))
    × ((command : String) × (args : List String) × (cwd : String) × (env : Dict String) × (t.effects
          ≡ initial.effects ++ (spawn initial.next command args cwd env ∷ []))
        × IsToldOf "langgraph" "fraud" "s1" "tok" "/tmp/b.json" env)
launch_via_adapter-told_example =
    launch_via_adapter-told config process definition binding context langgraph manifest "tok"
      spawning initial found accepted idle

abbrev asked : String → Launch
asked path = record {
  prepared = prepared;
  framework = "langgraph";
  run_id = "r1";
  participant_id = "fraud";
  bootstrap_file_path = path;
  now = "now";
}

abbrev seven : ℕ
seven = 7

seven_not_zero : seven ≢ 0
seven_not_zero = omega arith

-- Between the two launches, another participant is launched and the time of starting ends.
abbrev between : List Event
between =
    launched (record (asked "/tmp/d.json") { participant_id = "growth" }) (some 9)
    ∷ startup_elapsed (make_key "r1" "fraud")
    ∷ []

launch-once_example :
    launch
      (asked "/tmp/c.json")
      (some 8)
      (run between (launch (asked "/tmp/b.json") (some 7) (run [] initial)).0)
    ≡ (
      run between (launch (asked "/tmp/b.json") (some 7) (run [] initial)).0,
      (launch (asked "/tmp/b.json") (some 7) (run [] initial)).1,
    )
launch-once_example =
    launch-once [] between (asked "/tmp/b.json") (asked "/tmp/c.json") seven (some 8)
      (refl, (refl, tt)) refl refl seven_not_zero

-- A declared TypeScript source is run as what it is compiled to, where that is there.
compiled_preferred :
    resolve_entrypoint
      (record process { file_exists = λ cwd path. true })
      "src/a/b.ts"
      "node_file"
      "."
    ≡ "dist/a/b.js"
unfolding before_suffix
compiled_preferred = refl
