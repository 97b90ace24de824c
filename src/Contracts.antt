-- ===== src/Contracts.antt =====
-- src/contracts/example-agents.ts: the agents, and what an agent is started with. What the launch of
-- a scenario gives is passed on unread, and stays the parsed value that it is.
use examples_service.Common.{String, Option, List}
use examples_service.Common.Dict.{Dict}
use examples_service.Js.{Value, Fields}
use examples_service.Hosting.Contracts.{AgentManifest}

pub record AgentBootstrap : Type 0 where
  pub strategy : String
  pub entrypoint : String
  pub transport_identity : String
  pub mode : String
  pub launcher : Option String
  pub args : Option (List String)
  pub env : Option (Dict String)
  pub notes : Option (List String)

pub record ExampleAgentDefinition : Type 0 where
  pub agent_ref : String
  pub name : String
  pub role : String
  pub description : Option String
  pub framework : String
  pub supported_scenario_refs : Option (List String)
  pub bootstrap : AgentBootstrap
  pub manifest : Option AgentManifest
  pub metadata : Option Fields
  pub tags : Option (List String)

pub record ExampleAgentSummary : Type 0 where
  pub agent_ref : String
  pub name : String
  pub role : String
  pub framework : String
  pub description : Option String
  pub transport_identity : String
  pub entrypoint : String
  pub bootstrap_strategy : String
  pub bootstrap_mode : String
  pub tags : Option (List String)

pub data HostStatus : Type 0 where
  resolved bootstrapped : HostStatus

-- A summary, and how the agent is hosted.
pub record HostedExampleAgent : Type 0 where
  pub summary : ExampleAgentSummary
  pub participant_id : String
  pub status : HostStatus
  pub participant_metadata : Option Fields
  pub notes : Option (List String)

pub record ParticipantAgentBinding : Type 0 where
  pub participant_id : String
  pub role : String
  pub agent_ref : String

pub record StartPayload : Type 0 where
  pub intent : String
  pub participants : List String
  pub ttl_ms : Value
  pub mode_version : Value
  pub configuration_version : Value
  pub policy_version : Value
  pub context : Value
  pub context_id : Value
  pub extensions : Value
  pub roots : Value

pub record KickoffPayload : Type 0 where
  pub message_type : Value
  pub payload_type : Value
  pub payload : Value

pub record InitiatorPayload : Type 0 where
  pub participant_id : Value
  pub session_start : StartPayload
  pub kickoff : Option KickoffPayload

pub record ExampleAgentRunContext : Type 0 where
  pub run_id : String
  pub session_id : String
  pub trace_id : Option String
  pub scenario_ref : String
  pub mode_name : Value
  pub mode_version : Value
  pub configuration_version : Value
  pub policy_version : Value
  pub policy_hints : Value
  pub ttl_ms : Value
  pub session_context : Value
  pub participants : List String
  pub initiator_participant_id : Value
  pub initiator : Option InitiatorPayload
