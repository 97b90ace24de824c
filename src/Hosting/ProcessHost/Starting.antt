-- ===== src/Hosting/ProcessHost/Starting.antt =====
-- `launchViaAdapter` from the token on: what is handed to the supervisor, and what is reported back.
use examples_service.Common.{ℕ, String, true, Option, none, some, string_eq, nat_eq}
use examples_service.Common.Dict.{Dict}
use examples_service.Js.{str, bool, arr, end, field}
use examples_service.Config.{AppConfig}
use examples_service.Contracts.{
  ExampleAgentDefinition, ParticipantAgentBinding, ExampleAgentRunContext, HostedExampleAgent,
  bootstrapped,
}
use examples_service.Hosting.Contracts.{AgentManifest}
use examples_service.Hosting.Adapters.{or_else}
use examples_service.Hosting.Adapters.Launches.{Process}
use examples_service.Hosting.AdapterRegistry.{AgentHostAdapter}
use examples_service.Hosting.Supervisor.{
  PreparedLaunch, SupervisedProcess, Launch, State, launch, find,
}
use examples_service.Hosting.ProcessHost.Payload.{build_bootstrap_payload}
use examples_service.Hosting.ProcessHost.Attach.{pid_value, text_items, with_metadata, resolve}

-- `supervisor.launch(prepared, manifest, bootstrap, bootstrapFilePath)`
abbrev pub launch_of :
    ExampleAgentRunContext
    → ParticipantAgentBinding
    → AgentManifest
    → PreparedLaunch
    → String
    → String
    → Launch
launch_of context binding manifest prepared path now = record {
  prepared = prepared;
  framework = or_else manifest.framework "";
  run_id = context.run_id;
  participant_id = binding.participant_id;
  bootstrap_file_path = path;
  now = now;
}

abbrev pub launched_agent :
    ExampleAgentDefinition
    → ExampleAgentRunContext
    → HostedExampleAgent
    → Option SupervisedProcess
    → HostedExampleAgent
launched_agent definition context base none = base
launched_agent definition context base (some r) = with_metadata base bootstrapped (
    field "attachedRunId" (str context.run_id) (
      field "attachedAt" (str r.launched_at) (
        field "pid" (pid_value r.pid) (
          field "command" (str r.command) (
            field "args" (arr (text_items r.args)) (
              field "processAttached" (bool true) (
                field "launchMode" (str "adapter")
                  (field "adapterFramework" (str definition.framework) end))))))))

abbrev pub reported :
    ExampleAgentDefinition
    → ExampleAgentRunContext
    → HostedExampleAgent
    → State × ℕ
    → State × HostedExampleAgent
reported definition context base (s, id) =
    (s, launched_agent definition context base (find id s.objects))

-- What `spawn` is called with, and the clock: the path of the bootstrap file, the process identifier
-- that the child gets, and the time.
pub record Spawning : Type 0 where
  pub path : String
  pub pid : Option ℕ
  pub now : String

module _ (config : AppConfig) (adapters : Dict AgentHostAdapter) (process : Process) where
  abbrev pub launch_prepared :
      ExampleAgentDefinition
      → ParticipantAgentBinding
      → ExampleAgentRunContext
      → AgentManifest
      → Spawning
      → Option PreparedLaunch
      → State
      → Option (State × HostedExampleAgent)
  launch_prepared definition binding context manifest w none s = none
  launch_prepared definition binding context manifest w (some prepared) s = some (
      reported definition context (resolve config adapters definition binding)
        (launch (launch_of context binding manifest prepared w.path w.now) w.pid s))

  -- `launchViaAdapter` from the token on; a `TypeError` of the adapter is `none`.
  unfoldable pub launch_via_adapter :
      ExampleAgentDefinition
      → ParticipantAgentBinding
      → ExampleAgentRunContext
      → AgentHostAdapter
      → AgentManifest
      → String
      → Spawning
      → State
      → Option (State × HostedExampleAgent)
  launch_via_adapter definition binding context adapter manifest token w s =
      launch_prepared definition binding context manifest w
        (adapter.prepare_launch process manifest
          (build_bootstrap_payload config definition binding context token))
        s
