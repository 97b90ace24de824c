-- ===== src/Hosting/Service.antt =====
-- src/hosting/hosting.service.ts, over the interface of src/hosting/example-agent-host.provider.ts, and
-- src/hosting/in-memory-example-agent-host.provider.ts, which fills it.
pub mod Laws
use examples_service.Common.{String, Option, none, some, List, [], ◌∷◌, ◌≡◌}
use examples_service.Common.Dict.{Dict}
use examples_service.Js.{Value, undefined, str, arr, obj, Items, nil, cons, Fields, end, field, put}
use examples_service.Errors.{AppException, Result, ok, err}
use examples_service.Contracts.{
  ExampleAgentDefinition, ParticipantAgentBinding, ExampleAgentRunContext, HostedExampleAgent,
  HostStatus, resolved, bootstrapped,
}
use examples_service.Agents.{get_agent}
use examples_service.Compiler.Compile.Contracts.{CompileLaunchResult}

-- A provider of hosts, with the state that its calls change. `attach` is optional.
pub record HostProvider (S : Type 0) : Type 0 where
  pub resolve : ExampleAgentDefinition → ParticipantAgentBinding → S → S × Result HostedExampleAgent
  pub attach : Option (
      ExampleAgentDefinition
      → ParticipantAgentBinding
      → ExampleAgentRunContext
      → S
      → S × Result HostedExampleAgent)

-- `definition.bootstrap.launcher`, which is `undefined` where there is none.
abbrev launcher_value : Option String → Value
launcher_value none = undefined
launcher_value (some l) = str l

abbrev preview_metadata : ExampleAgentDefinition → ParticipantAgentBinding → Fields → Fields
preview_metadata definition binding more = field "role" (str binding.role) (
    field "agentRef" (str definition.agent_ref) (
      field "framework" (str definition.framework) (
        field "entrypoint" (str definition.bootstrap.entrypoint)
          (field "launcher" (launcher_value definition.bootstrap.launcher) more))))

abbrev in_memory_resolve : ExampleAgentDefinition → ParticipantAgentBinding → HostedExampleAgent
in_memory_resolve definition binding = record {
  summary = record {
    agent_ref = definition.agent_ref;
    name = definition.name;
    role = binding.role;
    framework = definition.framework;
    description = definition.description;
    transport_identity = definition.bootstrap.transport_identity;
    entrypoint = definition.bootstrap.entrypoint;
    bootstrap_strategy = definition.bootstrap.strategy;
    bootstrap_mode = definition.bootstrap.mode;
    tags = definition.tags;
  };
  participant_id = binding.participant_id;
  status = resolved;
  participant_metadata =
      some (preview_metadata definition binding (field "hostMode" (str "preview") end));
  notes = definition.bootstrap.notes;
}

abbrev pub in_memory_attach :
    ExampleAgentDefinition → ParticipantAgentBinding → ExampleAgentRunContext → HostedExampleAgent
in_memory_attach definition binding context = record (in_memory_resolve definition binding) {
  status = bootstrapped;
  participant_metadata = some (
      preview_metadata definition binding
        (field "attachedRunId" (str context.run_id) (field "hostMode" (str "in-memory") end)));
}

abbrev pub in_memory : HostProvider Unit
in_memory = record {
  resolve = λ definition binding s. (s, ok (in_memory_resolve definition binding));
  attach =
      some (λ definition binding context s. (s, ok (in_memory_attach definition binding context)));
}

abbrev fields_or_end : Option Fields → Fields
fields_or_end none = end
fields_or_end (some fs) = fs

abbrev status_text : HostStatus → String
status_text resolved = "resolved"
status_text bootstrapped = "bootstrapped"

abbrev hosted_value : HostedExampleAgent → Value
hosted_value agent = obj (
    field "participantId" (str agent.participant_id) (
      field "agentRef" (str agent.summary.agent_ref) (
        field "transportIdentity" (str agent.summary.transport_identity) (
          field "framework" (str agent.summary.framework) (
            field "entrypoint" (str agent.summary.entrypoint) (
              field "bootstrapStrategy" (str agent.summary.bootstrap_strategy) (
                field "bootstrapMode" (str agent.summary.bootstrap_mode) (
                  field "status" (str (status_text agent.status)) (
                    field "participantMetadata" (obj (fields_or_end agent.participant_metadata))
                      end)))))))))

abbrev pub hosted_items : List HostedExampleAgent → Items
hosted_items [] = nil
hosted_items (a ∷ agents) = cons (hosted_value a) (hosted_items agents)

-- `compiled` is a shared object; the call gives it back changed.
unfoldable pub apply_hosted_agents :
    List HostedExampleAgent → CompileLaunchResult → CompileLaunchResult
unfolding put
apply_hosted_agents agents compiled =
    let descriptor = compiled.run_descriptor in
    let session = descriptor.session in
    record compiled {
      run_descriptor = record descriptor {
        session = record session {
          metadata = put "hostedParticipants" (arr (hosted_items agents)) session.metadata;
        };
      };
    }

module _ {S : Type 0} where
  abbrev pub attach_by :
      HostProvider S
      → ExampleAgentRunContext
      → Option (
          ExampleAgentDefinition
          → ParticipantAgentBinding
          → ExampleAgentRunContext
          → S
          → S × Result HostedExampleAgent)
      → ExampleAgentDefinition
      → ParticipantAgentBinding
      → S
      → S × Result HostedExampleAgent
  attach_by provider context none definition binding s = provider.resolve definition binding s
  attach_by provider context (some attach) definition binding s =
      attach definition binding context s

  abbrev pub hosted_by :
      CompileLaunchResult
      → S × Result (List HostedExampleAgent)
      → S × Result (List HostedExampleAgent × CompileLaunchResult)
  hosted_by compiled (s, err e) = (s, err e)
  hosted_by compiled (s, ok agents) = (s, ok (agents, apply_hosted_agents agents compiled))

  abbrev pub hosted_cons :
      HostedExampleAgent
      → S × Result (List HostedExampleAgent)
      → S × Result (List HostedExampleAgent)
  hosted_cons agent (s, ok agents) = (s, ok (agent ∷ agents))
  hosted_cons agent (s, err e) = (s, err e)

  abbrev pub hosted_then :
      S × Result HostedExampleAgent
      → (S → S × Result (List HostedExampleAgent))
      → S × Result (List HostedExampleAgent)
  hosted_then (s, err e) next = (s, err e)
  hosted_then (s, ok agent) next = hosted_cons agent (next s)

  abbrev pub resolve_one :
      (ExampleAgentDefinition → ParticipantAgentBinding → S → S × Result HostedExampleAgent)
      → ParticipantAgentBinding
      → Result ExampleAgentDefinition
      → S
      → S × Result HostedExampleAgent
  resolve_one resolver b (err e) s = (s, err e)
  resolve_one resolver b (ok definition) s = resolver definition b s

module _ {S : Type 0} (catalog : Dict ExampleAgentDefinition) where
  unfoldable pub materialize_hosted_agents :
      (ExampleAgentDefinition → ParticipantAgentBinding → S → S × Result HostedExampleAgent)
      → List ParticipantAgentBinding
      → S
      → S × Result (List HostedExampleAgent)
  materialize_hosted_agents resolver [] s = (s, ok [])
  materialize_hosted_agents resolver (b ∷ bs) s =
      hosted_then (resolve_one resolver b (get_agent catalog b.agent_ref) s)
        (λ t. materialize_hosted_agents resolver bs t)

module _ {S : Type 0} (catalog : Dict ExampleAgentDefinition) (provider : HostProvider S) where
  unfoldable pub resolve_agents :
      CompileLaunchResult → S → S × Result (List HostedExampleAgent × CompileLaunchResult)
  unfolding materialize_hosted_agents
  resolve_agents compiled s =
      hosted_by compiled
        (materialize_hosted_agents catalog provider.resolve compiled.participant_bindings s)

  unfoldable pub attach_agents :
      CompileLaunchResult
      → ExampleAgentRunContext
      → S
      → S × Result (List HostedExampleAgent × CompileLaunchResult)
  unfolding materialize_hosted_agents
  attach_agents compiled context s = hosted_by compiled (
      materialize_hosted_agents catalog (attach_by provider context provider.attach)
        compiled.participant_bindings s)
