-- ===== src/Run/Tests.antt =====
-- A run with a label and a tag of its own, whose one agent is hosted in memory.
use examples_service.Common.{◌≡◌, refl, ap, sym, true, some, [], ◌∷◌, if◌then◌else◌}
use examples_service.Common.Dict.{lookup}
use examples_service.Js.{str, put}
use examples_service.Errors.{ok}
use examples_service.Contracts.{ExampleAgentRunContext, HostedExampleAgent}
use examples_service.Compiler.Compile.{ids_of}
use examples_service.Compiler.Compile.Contracts.{CompileLaunchResult}
use examples_service.Compiler.Outcome.{returned, unique}
use examples_service.Hosting.Service.{
  in_memory, in_memory_attach, attach_by, resolve_agents, attach_agents, materialize_hosted_agents,
  apply_hosted_agents,
}
use examples_service.Hosting.Service.Laws.{IsFaithful, hosted_ids}
use examples_service.Run.{
  RunExampleRequest, RunExampleResult, apply_request_overrides, context_of, should_bootstrap,
  run_example,
}
use examples_service.Run.Sample.{config, catalog, agent, compiled}
use examples_service.Run.Laws.{Keeps, run_example-hosts}

same_of_ok : {x y : HostedExampleAgent} → ok x ≡ ok y → x ≡ y
same_of_ok h = cc

in_memory-IsFaithful :
    (context : ExampleAgentRunContext) → IsFaithful (attach_by in_memory context in_memory.attach)
in_memory-IsFaithful context d b s a h =
    ap (λ (x : HostedExampleAgent). x.participant_id) (sym (same_of_ok h))

abbrev request : RunExampleRequest
request = record {
  bootstrap_agents = some true;
  tags = some ("demo" ∷ "night" ∷ []);
  requester = some (record { actor_id = str "ann"; actor_type = str "user" });
  run_label = some "first";
}

abbrev labelled : CompileLaunchResult
labelled = apply_request_overrides request compiled

abbrev hosted : HostedExampleAgent
hosted =
    in_memory_attach agent
      (record { participant_id = "fraud"; role = "fraud"; agent_ref = "fraud-agent" })
      (context_of "s1" labelled)

abbrev ended : RunExampleResult
ended = record {
  compiled = apply_hosted_agents (hosted ∷ []) labelled;
  hosted_agents = hosted ∷ [];
  session_id = some "s1";
}

there :
    (run_example config catalog in_memory "s9" request (returned compiled) tt).1 ≡ returned ended
unfolding run_example apply_request_overrides resolve_agents attach_agents materialize_hosted_agents
    apply_hosted_agents lookup put unique
there = refl

night :
    labelled.run_descriptor.execution.tags ≡ "example" ∷ "fraud" ∷ "check" ∷ "demo" ∷ "night" ∷ []
unfolding apply_request_overrides put unique
night = refl

run_example-hosts_example :
    (hosted_ids ended.hosted_agents ≡ (
      if should_bootstrap config request.bootstrap_agents
      then ids_of compiled.participant_bindings
      else []))
    × Keeps compiled ended.compiled
    × (should_bootstrap config request.bootstrap_agents ≡ true
        → ended.session_id ≡ some ended.compiled.session_id)
run_example-hosts_example =
    run_example-hosts config catalog in_memory "s9" request compiled tt ended in_memory-IsFaithful
      there
