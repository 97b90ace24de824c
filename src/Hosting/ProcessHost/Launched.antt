-- ===== src/Hosting/ProcessHost/Launched.antt =====
-- What a child is started with, and that one child at most is started.
use examples_service.Common.{
  String, ◌≡◌, refl, ap, ◌∙◌, true, false, Option, none, some, List, [], ◌∷◌, ◌++◌, ◌==◌, string_eq,
  if◌then◌else◌,
}
use examples_service.Common.Dict.{Dict, lookup, insert, lookup-insert}
use examples_service.Contracts.{
  ExampleAgentDefinition, ParticipantAgentBinding, ExampleAgentRunContext, HostedExampleAgent,
}
use examples_service.Config.{AppConfig}
use examples_service.Hosting.Contracts.{AgentManifest, BootstrapPayload}
use examples_service.Hosting.Adapters.Launches.{Process}
use examples_service.Hosting.Adapters.{build_agent_env}
use examples_service.Hosting.AdapterRegistry.{AgentHostAdapter, registered, get_adapter, validate}
use examples_service.Hosting.AdapterRegistry.Laws.{prepare-env, validate-prepare}
use examples_service.Hosting.Supervisor.{
  PreparedLaunch, Launch, State, spawn, launch, get_entry, make_key, spawn_process, launch_over,
}
use examples_service.Hosting.ProcessHost.Payload.{build_bootstrap_payload}
use examples_service.Hosting.ProcessHost.Attach.{resolve}
use examples_service.Hosting.ProcessHost.Starting.{
  Spawning, launch_via_adapter, launch_of, launch_prepared, reported,
}

-- The variables that say who an agent is, in whose session, and where it reads the rest.
abbrev pub IsToldOf : String → String → String → String → String → Dict String → Type 0
IsToldOf framework participant session token path env =
    (lookup "MACP_FRAMEWORK" env ≡ some framework)
    × (lookup "MACP_PARTICIPANT_ID" env ≡ some participant)
    × (lookup "MACP_SESSION_ID" env ≡ some session)
    × (lookup "MACP_RUNTIME_TOKEN" env ≡ some token)
    × (lookup "MACP_BOOTSTRAP_FILE" env ≡ some path)

module _ (config : AppConfig) (process : Process) (definition : ExampleAgentDefinition)
    (binding : ParticipantAgentBinding) (context : ExampleAgentRunContext)
    (adapter : AgentHostAdapter) (manifest : AgentManifest) (token : String) (w : Spawning) where
  abbrev payload : BootstrapPayload
  payload = build_bootstrap_payload config definition binding context token

  told_env :
      (q : PreparedLaunch)
      → get_adapter registered definition.framework ≡ some adapter
      → adapter.prepare_launch process manifest payload ≡ some q
      → IsToldOf definition.framework binding.participant_id context.session_id token w.path
          (insert "MACP_BOOTSTRAP_FILE" w.path q.env)
  unfolding lookup build_bootstrap_payload
  told_env q found prepared =
      let own : (k v : String)
          → lookup k (build_agent_env payload definition.framework) ≡ some v
          → lookup k q.env ≡ some v =
        λ k v h.
          prepare-env process manifest payload definition.framework k v adapter q found prepared
            h in
      let other : (k v : String)
          → ("MACP_BOOTSTRAP_FILE" == k) ≡ false
          → lookup k (build_agent_env payload definition.framework) ≡ some v
          → lookup k (insert "MACP_BOOTSTRAP_FILE" w.path q.env) ≡ some v =
        λ k v n h.
          lookup-insert "MACP_BOOTSTRAP_FILE" k w.path q.env
          ∙ ap (λ b. if b then some w.path else lookup k q.env) n
          ∙ own k v h in
      (
        other "MACP_FRAMEWORK" definition.framework refl refl,
        other "MACP_PARTICIPANT_ID" binding.participant_id refl refl,
        other "MACP_SESSION_ID" context.session_id refl refl,
        other "MACP_RUNTIME_TOKEN" token refl refl,
        lookup-insert "MACP_BOOTSTRAP_FILE" "MACP_BOOTSTRAP_FILE" w.path q.env,
      )

  abbrev asked : PreparedLaunch → Launch
  asked q = launch_of context binding manifest q w.path w.now

  attached : State → Option (State × HostedExampleAgent)
  attached s =
      launch_via_adapter config registered process definition binding context adapter manifest token
        w s

  launched_by :
      (q : PreparedLaunch) (s : State)
      → adapter.prepare_launch process manifest payload ≡ some q
      → attached s
        ≡ some (
            reported definition context
              (resolve config registered definition binding)
              (launch (asked q) w.pid s))
  unfolding launch_via_adapter attached
  launched_by q s e =
      ap (λ o. launch_prepared config registered process definition binding context manifest w o s)
        e

  -- Where no process runs for the participant, the attachment of an agent whose manifest the validator
  -- accepts, with the adapter of the agent's framework, returns, and has started exactly one child.
  -- Its environment has the framework, the participant, the session, the token that was minted and
  -- the path of the bootstrap file, whatever the manifest and the process of the service have under
  -- these names.
  pub launch_via_adapter-told :
      (s : State)
      → get_adapter registered definition.framework ≡ some adapter
      → (validate registered manifest).valid ≡ true
      → get_entry (make_key context.run_id binding.participant_id) s ≡ none
      → (t : State) × (hosted : HostedExampleAgent) × (launch_via_adapter config registered process
            definition binding context adapter manifest token w s
          ≡ some (t, hosted))
        × ((command : String) × (args : List String) × (cwd : String) × (env : Dict String)
            × (t.effects ≡ s.effects ++ (spawn s.next command args cwd env ∷ []))
            × IsToldOf definition.framework binding.participant_id context.session_id token w.path
                env)
  unfolding launch attached
  launch_via_adapter-told s found valid idle =
      let (q, e) =
        validate-prepare manifest definition.framework adapter process payload valid found in
      let out =
        reported definition context (resolve config registered definition binding)
          (spawn_process (asked q) w.pid s) in
      (
        out.0,
        out.1,
        launched_by q s e
            ∙ ap
                (λ o. some (
                  reported definition context (resolve config registered definition binding)
                    (launch_over (asked q) w.pid o s)))
                idle,
        (
          q.command,
          q.args,
          q.cwd,
          insert "MACP_BOOTSTRAP_FILE" w.path q.env,
          refl,
          told_env q found e,
        ),
      )
