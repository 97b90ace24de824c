-- ===== src/Hosting/Contracts.antt =====
-- src/hosting/contracts/: the manifest of an agent, and the file that a launched agent reads. What
-- the launch of a scenario gives is passed on unread, and stays the parsed value that it is.
use examples_service.Common.Integer.{ℤ}
use examples_service.Common.{ℕ, String, Bool, Option, List}
use examples_service.Common.Dict.{Dict}
use examples_service.Js.{Value, Fields}

-- A text that is absent is the empty one here, which the code treats alike in every test.
pub record Entrypoint : Type 0 where
  pub type : String
  pub value : String

pub record Host : Type 0 where
  pub python : Option String
  pub node : Option String
  pub env : Option (Dict String)
  pub args : Option (List String)
  pub cwd : Option String
  pub requirements_file : Option String
  pub install : Option Bool
  pub startup_timeout_ms : Option ℕ
  pub health_timeout_ms : Option ℕ

pub record Macp : Type 0 where
  pub role : Option String
  pub supported_message_types : Option (List String)
  pub capabilities : Option (List String)

-- The file is parsed JSON that nothing checks, so its required parts can be absent too.
pub record AgentManifest : Type 0 where
  pub id : String
  pub name : String
  pub framework : Option String
  pub version : Option String
  pub entrypoint : Option Entrypoint
  pub host : Option Host
  pub macp : Option Macp
  pub framework_config : Option Fields

pub record ManifestValidationResult : Type 0 where
  pub valid : Bool
  pub errors : List String

pub record SessionStart : Type 0 where
  pub intent : String
  pub participants : List String
  pub ttl_ms : Value
  pub mode_version : Value
  pub configuration_version : Value
  pub policy_version : Value
  pub context : Value
  pub context_id : Value
  pub extensions : Value
  pub roots : Value

pub record Kickoff : Type 0 where
  pub message_type : Value
  pub payload_type : Value
  pub payload : Value

pub record Initiator : Type 0 where
  pub session_start : SessionStart
  pub kickoff : Option Kickoff

pub record CancelCallback : Type 0 where
  pub host : String
  pub port : ℤ
  pub path : String

pub record BootstrapMetadata : Type 0 where
  pub run_id : Option String
  pub trace_id : Option String
  pub scenario_ref : Option String
  pub role : Option String
  pub framework : Option String
  pub agent_ref : Option String
  pub policy_hints : Value
  pub session_context : Value

pub record BootstrapPayload : Type 0 where
  pub participant_id : String
  pub session_id : Option String
  pub mode : Value
  pub runtime_url : Option String
  pub auth_token : Option String
  pub agent_id : Option String
  pub secure : Option Bool
  pub allow_insecure : Option Bool
  pub participants : Option (List String)
  pub mode_version : Value
  pub configuration_version : Value
  pub policy_version : Value
  pub initiator : Option Initiator
  pub cancel_callback : Option CancelCallback
  pub metadata : Option BootstrapMetadata
