-- ===== src/Hosting/ProcessHost/Attach.antt =====
-- `resolve`, and `attach` up to the request of a token.
use examples_service.Common.{
  ℕ, String, ◌<>◌, true, false, not, ◌&&◌, Option, none, some, List, [], ◌∷◌, ◌==◌, string_eq,
  nat_eq, if◌then◌else◌,
}
use examples_service.Common.Dict.{Dict}
use examples_service.Common.Text.{truthy, show_ℕ}
use examples_service.Js.{
  Value, undefined, str, num, bool, arr, Items, nil, cons, Fields, end, field, spread,
}
use examples_service.Errors.{
  app_exception, invalid_config, auth_mint_failed, internal_server_error, bad_gateway, Result, ok,
  err,
}
use examples_service.Config.{AppConfig}
use examples_service.Contracts.{
  ExampleAgentDefinition, ParticipantAgentBinding, ExampleAgentRunContext, HostedExampleAgent,
  HostStatus, resolved, bootstrapped,
}
use examples_service.Hosting.Contracts.{AgentManifest, ManifestValidationResult}
use examples_service.Common.Words.{before_suffix}
use examples_service.Hosting.AdapterRegistry.{AgentHostAdapter, get_adapter, has_adapter, validate}
use examples_service.Hosting.Supervisor.{
  SupervisedProcess, State, get_entry, make_key, has_pid, is_stopped,
}
use examples_service.Hosting.ProcessHost.Payload.{is_initiator, derive_scopes}

abbrev launcher_by_name : Option String → String
launcher_by_name none = "node"
launcher_by_name (some stem) = "python"

abbrev launcher_or : String → Option String → String
launcher_or entrypoint none = launcher_by_name (before_suffix ".py" entrypoint)
launcher_or entrypoint (some l) =
    if truthy l then l else launcher_by_name (before_suffix ".py" entrypoint)

abbrev pub resolve_launcher : ExampleAgentDefinition → String
resolve_launcher definition =
    launcher_or definition.bootstrap.entrypoint definition.bootstrap.launcher

abbrev pub text_items : List String → Items
text_items [] = nil
text_items (s ∷ ss) = cons (str s) (text_items ss)

abbrev pub pid_value : Option ℕ → Value
pid_value none = undefined
pid_value (some n) = num (show_ℕ n)

-- `{ ...base, status, participantMetadata: { ...base.participantMetadata, ...more } }`
abbrev metadata_of : Option Fields → Fields
metadata_of none = end
metadata_of (some fs) = fs

abbrev pub with_metadata : HostedExampleAgent → HostStatus → Fields → HostedExampleAgent
with_metadata base status more = record base {
  status = status;
  participant_metadata = some (spread (metadata_of base.participant_metadata) more);
}

abbrev pub running_process : Option (ℕ × SupervisedProcess) → Option SupervisedProcess
running_process none = none
running_process (some (id, r)) =
    if has_pid r.pid && not (is_stopped r.health_status) then some r else none

module _ (config : AppConfig) (adapters : Dict AgentHostAdapter) where
  unfoldable pub resolve : ExampleAgentDefinition → ParticipantAgentBinding → HostedExampleAgent
  unfolding before_suffix
  resolve definition binding = record {
    summary = record {
      agent_ref = definition.agent_ref;
      name = definition.name;
      role = binding.role;
      framework = definition.framework;
      description = definition.description;
      transport_identity = definition.bootstrap.transport_identity;
      entrypoint = definition.bootstrap.entrypoint;
      bootstrap_strategy = definition.bootstrap.strategy;
      bootstrap_mode = definition.bootstrap.mode;
      tags = definition.tags;
    };
    participant_id = binding.participant_id;
    status = resolved;
    participant_metadata = some (
        field "role" (str binding.role) (
          field "agentRef" (str definition.agent_ref) (
            field "framework" (str definition.framework) (
              field "entrypoint" (str definition.bootstrap.entrypoint) (
                field "launcher" (str (resolve_launcher definition)) (
                  field "hostMode" (str "external-process") (
                    field "processAttached" (bool false) (
                      field "adapterAvailable" (bool (has_adapter adapters definition.framework))
                        end))))))));
    notes = definition.bootstrap.notes;
  }

  abbrev pub already_running :
      ExampleAgentRunContext → HostedExampleAgent → SupervisedProcess → HostedExampleAgent
  already_running context base r = with_metadata base bootstrapped (
      field "attachedRunId" (str context.run_id) (
        field "attachedAt" (str r.launched_at) (
          field "pid" (pid_value r.pid) (
            field "command" (str r.command)
              (field "args" (arr (text_items r.args)) (field "processAttached" (bool true) end))))))

  abbrev pub not_attached :
      ExampleAgentDefinition
      → ExampleAgentRunContext
      → String
      → HostedExampleAgent
      → HostedExampleAgent
  not_attached definition context now base = with_metadata base bootstrapped (
      field "attachedRunId" (str context.run_id) (
        field "attachedAt" (str now) (
          field "processAttached" (bool false)
            (field "attachmentMode" (str definition.bootstrap.mode) end))))

  abbrev pub refused :
      ExampleAgentRunContext → List String → HostedExampleAgent → HostedExampleAgent
  refused context errors base = with_metadata base resolved (
      field "attachedRunId" (str context.run_id) (
        field "processAttached" (bool false)
          (field "manifestErrors" (arr (text_items errors)) end)))

  -- Where `attach` is when it waits: an agent is returned, or a token is asked for, for the sender and
  -- with the scopes.
  pub data Attaching : Type 0 where
    done : HostedExampleAgent → Attaching
    minting : AgentHostAdapter → AgentManifest → String → Fields → Attaching

  abbrev invalid {ℓ} : {A : Type ℓ} → String → Result A
  invalid message = err (app_exception invalid_config message internal_server_error)

  -- `resolveAgentToken` up to the request.
  abbrev pub ask_for_token :
      ExampleAgentDefinition
      → ParticipantAgentBinding
      → ExampleAgentRunContext
      → AgentHostAdapter
      → AgentManifest
      → Result Attaching
  ask_for_token definition binding context adapter manifest =
      if truthy binding.participant_id
      then ok (
          minting adapter manifest binding.participant_id
            (derive_scopes config binding.participant_id context (is_initiator context binding)))
      else err (
          app_exception auth_mint_failed
            ("cannot mint JWT: binding has no participantId (agentRef=" <> definition.agent_ref
              <> ")")
            bad_gateway)

  abbrev validated :
      ExampleAgentDefinition
      → ParticipantAgentBinding
      → ExampleAgentRunContext
      → AgentHostAdapter
      → AgentManifest
      → ManifestValidationResult
      → Result Attaching
  validated definition binding context adapter manifest result =
      if result.valid
      then ask_for_token definition binding context adapter manifest
      else ok (done (refused context result.errors (resolve definition binding)))

  abbrev with_manifest :
      ExampleAgentDefinition
      → ParticipantAgentBinding
      → ExampleAgentRunContext
      → AgentHostAdapter
      → Option AgentManifest
      → Result Attaching
  with_manifest definition binding context adapter none =
      invalid ("agent manifest missing for " <> definition.agent_ref)
  with_manifest definition binding context adapter (some manifest) =
      validated definition binding context adapter manifest (validate adapters manifest)

  abbrev with_adapter :
      ExampleAgentDefinition
      → ParticipantAgentBinding
      → ExampleAgentRunContext
      → Option AgentHostAdapter
      → Result Attaching
  with_adapter definition binding context none = invalid (
      "no host adapter registered for framework \"" <> definition.framework <> "\" (agentRef="
      <> definition.agent_ref <> ")")
  with_adapter definition binding context (some adapter) =
      with_manifest definition binding context adapter definition.manifest

  abbrev attach_new :
      ExampleAgentDefinition
      → ParticipantAgentBinding
      → ExampleAgentRunContext
      → String
      → Option SupervisedProcess
      → Result Attaching
  attach_new definition binding context now (some r) =
      ok (done (already_running context (resolve definition binding) r))
  attach_new definition binding context now none =
      if definition.bootstrap.mode == "attached"
      then with_adapter definition binding context (get_adapter adapters definition.framework)
      else ok (done (not_attached definition context now (resolve definition binding)))

  unfoldable pub attach :
      ExampleAgentDefinition
      → ParticipantAgentBinding
      → ExampleAgentRunContext
      → String
      → State
      → Result Attaching
  unfolding resolve spread
  attach definition binding context now s =
      attach_new definition binding context now
        (running_process (get_entry (make_key context.run_id binding.participant_id) s))
