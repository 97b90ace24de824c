-- ===== src/Compiler/Compile/Contracts.antt =====
-- src/contracts/launch.ts and src/contracts/run-descriptor.ts: the request and the result of
-- `compile`. What the launch gives is passed on unread, and stays the parsed value that it is.
use examples_service.Common.{String, Option, List}
use examples_service.Js.{Value, Fields}
use examples_service.Contracts.{ParticipantAgentBinding, InitiatorPayload}

pub record CompileLaunchRequest : Type 0 where
  pub scenario_ref : String
  pub template_id : Option String
  pub inputs : Fields
  pub mode : Option String

-- `participants` lists the ids, each of which stands in an object of its own.
pub record Session : Type 0 where
  pub session_id : String
  pub mode_name : Value
  pub mode_version : Value
  pub configuration_version : Value
  pub policy_version : Value
  pub ttl_ms : Value
  pub participants : List String
  pub metadata : Fields

pub record Execution : Type 0 where
  pub idempotency_key : Value
  pub tags : List String
  pub actor_id : Value
  pub actor_type : Value

pub record RunDescriptor : Type 0 where
  pub mode : String
  pub runtime_kind : Value
  pub runtime_version : Value
  pub session : Session
  pub execution : Execution

-- With the fields of `scenarioMeta` and of `display`.
pub record CompileLaunchResult : Type 0 where
  pub run_descriptor : RunDescriptor
  pub initiator : Option InitiatorPayload
  pub session_id : String
  pub mode : String
  pub policy_hints : Value
  pub session_context : Value
  pub initiator_participant_id : Value
  pub title : String
  pub scenario_ref : String
  pub template_id : Option String
  pub expected_decision_kinds : Option (List String)
  pub participant_bindings : List ParticipantAgentBinding
