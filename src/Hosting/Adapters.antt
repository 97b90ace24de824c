-- ===== src/Hosting/Adapters.antt =====
-- src/hosting/adapters/: how an agent of each framework is checked and started. The process that
-- runs the service, its environment and the files it sees are parameters.
pub mod Checks
pub mod Launches
pub mod Laws
use examples_service.Common.{ℕ, String, Bool, true, false, Option, none, some, if◌then◌else◌}
use examples_service.Common.{List}
use examples_service.Common.Integer.{show_ℤ}
use examples_service.Common.Dict.{Dict}
use examples_service.Hosting.Contracts.{BootstrapPayload, CancelCallback, BootstrapMetadata}
use examples_service.Common.{[], ◌∷◌}

-- `value ?? otherwise`
abbrev pub or_else {ℓ} : {A : Type ℓ} → Option A → A → A
or_else none a = a
or_else (some b) a = b

abbrev is_false : Option Bool → Bool
is_false (some false) = true
is_false _ = false

abbrev is_true : Option Bool → Bool
is_true (some true) = true
is_true _ = false

abbrev host_of : Option CancelCallback → String
host_of none = ""
host_of (some c) = c.host

abbrev port_of : Option CancelCallback → String
port_of none = ""
port_of (some c) = show_ℤ c.port

abbrev path_of : Option CancelCallback → String
path_of none = ""
path_of (some c) = c.path

abbrev run_id_of : Option BootstrapMetadata → String
run_id_of none = ""
run_id_of (some meta) = or_else meta.run_id ""

abbrev pub build_agent_env : BootstrapPayload → String → Dict String
build_agent_env bootstrap framework =
    ("MACP_BOOTSTRAP_FILE", "")
    ∷ ("MACP_LOG_LEVEL", "info")
    ∷ ("MACP_FRAMEWORK", framework)
    ∷ ("MACP_PARTICIPANT_ID", bootstrap.participant_id)
    ∷ ("MACP_RUN_ID", run_id_of bootstrap.metadata)
    ∷ ("MACP_SESSION_ID", or_else bootstrap.session_id "")
    ∷ ("MACP_RUNTIME_ADDRESS", or_else bootstrap.runtime_url "")
    ∷ ("MACP_RUNTIME_TOKEN", or_else bootstrap.auth_token "")
    ∷ ("MACP_RUNTIME_TLS", if is_false bootstrap.secure then "false" else "true")
    ∷ ("MACP_RUNTIME_ALLOW_INSECURE", if is_true bootstrap.allow_insecure then "true" else "false")
    ∷ ("MACP_CANCEL_CALLBACK_HOST", host_of bootstrap.cancel_callback)
    ∷ ("MACP_CANCEL_CALLBACK_PORT", port_of bootstrap.cancel_callback)
    ∷ ("MACP_CANCEL_CALLBACK_PATH", path_of bootstrap.cancel_callback)
    ∷ []
