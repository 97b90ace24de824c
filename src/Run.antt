-- ===== src/Run.antt =====
-- src/launch/example-run.service.ts: the run of an example, on top of the compiler and the hosting
-- service. A session id that the compiler leaves empty is drawn; `drawn` is what that gives.
pub mod Laws
pub mod Sample
mod Tests
use examples_service.Common.{
  String, Bool, true, false, Option, none, some, List, [], ◌∷◌, ◌++◌, if◌then◌else◌,
}
use examples_service.Common.Text.{truthy}
use examples_service.Common.Dict.{Dict}
use examples_service.Js.{Value, undefined, str, put}
use examples_service.Errors.{Result, ok, err}
use examples_service.Config.{AppConfig}
use examples_service.Contracts.{ExampleAgentDefinition, ExampleAgentRunContext, HostedExampleAgent}
use examples_service.Compiler.Outcome.{Outcome, ill_typed, thrown, returned, unique}
use examples_service.Compiler.Compile.Contracts.{CompileLaunchResult, Execution}
use examples_service.Hosting.Service.{HostProvider, resolve_agents, attach_agents}

pub record Requester : Type 0 where
  pub actor_id : Value
  pub actor_type : Value

-- The fields of a `RunExampleRequest` beside those that the compiler reads.
pub record RunExampleRequest : Type 0 where
  pub bootstrap_agents : Option Bool
  pub tags : Option (List String)
  pub requester : Option Requester
  pub run_label : Option String

pub record RunExampleResult : Type 0 where
  pub compiled : CompileLaunchResult
  pub hosted_agents : List HostedExampleAgent
  pub session_id : Option String

abbrev with_execution : (Execution → Execution) → CompileLaunchResult → CompileLaunchResult
with_execution change compiled =
    let descriptor = compiled.run_descriptor in
    record compiled {
      run_descriptor = record descriptor { execution = change descriptor.execution };
    }

-- `if (request.tags && request.tags.length > 0)`
abbrev pub add_tags : Option (List String) → CompileLaunchResult → CompileLaunchResult
add_tags (some (t ∷ ts)) compiled =
    with_execution (λ x. record x { tags = unique [] (x.tags ++ (t ∷ ts)) }) compiled
add_tags _ compiled = compiled

abbrev pub set_requester : Option Requester → CompileLaunchResult → CompileLaunchResult
set_requester none compiled = compiled
set_requester (some r) compiled =
    with_execution (λ x. record x { actor_id = r.actor_id; actor_type = r.actor_type }) compiled

abbrev label_run : String → CompileLaunchResult → CompileLaunchResult
label_run label compiled =
    let descriptor = compiled.run_descriptor in
    let session = descriptor.session in
    record compiled {
      run_descriptor = record descriptor {
        session = record session { metadata = put "runLabel" (str label) session.metadata };
      };
    }

abbrev pub set_label : Option String → CompileLaunchResult → CompileLaunchResult
set_label none compiled = compiled
set_label (some label) compiled = if truthy label then label_run label compiled else compiled

unfoldable pub apply_request_overrides :
    RunExampleRequest → CompileLaunchResult → CompileLaunchResult
unfolding unique put
apply_request_overrides request compiled =
    set_label request.run_label (set_requester request.requester (add_tags request.tags compiled))

abbrev pub context_of : String → CompileLaunchResult → ExampleAgentRunContext
context_of session_id compiled =
    let session = compiled.run_descriptor.session in
    record {
      run_id = session_id;
      session_id = session_id;
      trace_id = none;
      scenario_ref = compiled.scenario_ref;
      mode_name = session.mode_name;
      mode_version = session.mode_version;
      configuration_version = session.configuration_version;
      policy_version = session.policy_version;
      policy_hints = compiled.policy_hints;
      ttl_ms = session.ttl_ms;
      session_context = compiled.session_context;
      participants = session.participants;
      initiator_participant_id = compiled.initiator_participant_id;
      initiator = compiled.initiator;
    }

abbrev pub should_bootstrap : AppConfig → Option Bool → Bool
should_bootstrap config none = config.auto_bootstrap_example_agents
should_bootstrap config (some b) = b

module _ {S : Type 0} (config : AppConfig) (catalog : Dict ExampleAgentDefinition)
    (provider : HostProvider S) (drawn : String) where
  abbrev pub finished :
      String
      → S × Result (List HostedExampleAgent × CompileLaunchResult)
      → S × Outcome RunExampleResult
  finished session_id (s, err e) = (s, thrown e)
  finished session_id (s, ok (agents, compiled)) = (
    s,
    returned (record { compiled = compiled; hosted_agents = agents; session_id = some session_id }),
  )

  abbrev pub attach_run : CompileLaunchResult → S → S × Outcome RunExampleResult
  attach_run compiled s =
      let session_id = if truthy compiled.session_id then compiled.session_id else drawn in
      finished session_id (
        attach_agents catalog provider (record compiled { session_id = session_id })
          (context_of session_id compiled) s)

  abbrev pub after_resolve :
      S × Result (List HostedExampleAgent × CompileLaunchResult) → S × Outcome RunExampleResult
  after_resolve (s, err e) = (s, thrown e)
  after_resolve (s, ok (agents, compiled)) = attach_run compiled s

  abbrev pub run_compiled :
      RunExampleRequest → Outcome CompileLaunchResult → S → S × Outcome RunExampleResult
  run_compiled request ill_typed s = (s, ill_typed)
  run_compiled request (thrown e) s = (s, thrown e)
  run_compiled request (returned result) s =
      let compiled = apply_request_overrides request result in
      if should_bootstrap config request.bootstrap_agents
      then after_resolve (resolve_agents catalog provider compiled s)
      else (s, returned (record { compiled = compiled; hosted_agents = []; session_id = none }))

  -- `compiling` is how `compile(request)` ends.
  unfoldable pub run_example :
      RunExampleRequest → Outcome CompileLaunchResult → S → S × Outcome RunExampleResult
  unfolding apply_request_overrides resolve_agents attach_agents
  run_example request compiling s = run_compiled request compiling s
