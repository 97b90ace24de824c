-- ===== src/Hosting/Adapters/Launches.antt =====
-- The `prepareLaunch` of the four adapters. It throws a `TypeError`, which is `none`, where the
-- manifest has no entrypoint.
use examples_service.Common.{ℕ, String, ◌<>◌, Bool, Option, none, some}
use examples_service.Common.{◌==◌, string_eq, if◌then◌else◌, List, [], ◌∷◌}
use examples_service.Common.Dict.{Dict, spread, insert}
use examples_service.Common.Words.{before_suffix}
use examples_service.Hosting.Contracts.{Entrypoint, Host, AgentManifest, BootstrapPayload}
use examples_service.Hosting.Adapters.{or_else, build_agent_env}
use examples_service.Hosting.Supervisor.{PreparedLaunch}

-- The process of the service. `file_exists cwd value` is `existsSync(resolve(cwd, value))`.
pub record Process : Type 0 where
  pub env : Dict String
  pub cwd : String
  pub exec_path : String
  pub file_exists : String → String → Bool

-- `manifest.host?.field`
abbrev pub host_field {ℓ} : {A : Type ℓ} → (Host → Option A) → Option Host → Option A
host_field f none = none
host_field f (some host) = f host

abbrev own_args : AgentManifest → List String
own_args manifest = or_else (host_field (λ h. h.args) manifest.host) []

abbrev own_env : AgentManifest → Dict String
own_env manifest = or_else (host_field (λ h. h.env) manifest.host) []

abbrev own_cwd : Process → AgentManifest → String
own_cwd process manifest = or_else (host_field (λ h. h.cwd) manifest.host) process.cwd

abbrev own_timeout : ℕ → AgentManifest → ℕ
own_timeout default manifest =
    or_else (host_field (λ h. h.startup_timeout_ms) manifest.host) default

abbrev python_args : String → String → List String → List String
python_args type entrypoint more =
    if type == "python_module" then "-m" ∷ entrypoint ∷ more else entrypoint ∷ more

abbrev pub python_env : Process → BootstrapPayload → String → AgentManifest → String → Dict String
python_env process bootstrap framework manifest value = insert "EXAMPLE_AGENT_ENTRYPOINT" value (
    spread (insert "PYTHONUNBUFFERED" "1" (spread process.env (own_env manifest)))
      (build_agent_env bootstrap framework))

-- What the three adapters for Python agents each do.
abbrev pub prepare_python :
    String
    → ℕ
    → Process
    → AgentManifest
    → BootstrapPayload
    → Option Entrypoint
    → Option PreparedLaunch
prepare_python framework timeout process manifest bootstrap none = none
prepare_python framework timeout process manifest bootstrap (some e) = some (record {
  command = or_else (host_field (λ h. h.python) manifest.host) "python3";
  args = python_args e.type e.value (own_args manifest);
  env = python_env process bootstrap framework manifest e.value;
  cwd = own_cwd process manifest;
  startup_timeout_ms = own_timeout timeout manifest;
})

unfoldable pub prepare_langgraph :
    Process → AgentManifest → BootstrapPayload → Option PreparedLaunch
unfolding spread insert
prepare_langgraph process manifest bootstrap =
    prepare_python "langgraph" 30000 process manifest bootstrap manifest.entrypoint

unfoldable pub prepare_langchain :
    Process → AgentManifest → BootstrapPayload → Option PreparedLaunch
unfolding spread insert
prepare_langchain process manifest bootstrap =
    prepare_python "langchain" 30000 process manifest bootstrap manifest.entrypoint

unfoldable pub prepare_crewai : Process → AgentManifest → BootstrapPayload → Option PreparedLaunch
unfolding spread insert
prepare_crewai process manifest bootstrap =
    prepare_python "crewai" 45000 process manifest bootstrap manifest.entrypoint

-- The text behind the prefix `src/`.
abbrev behind_src : String → Option String
behind_src (String.◌∷◌ a (String.◌∷◌ b (String.◌∷◌ c (String.◌∷◌ d rest)))) =
    if String.◌∷◌ a (String.◌∷◌ b (String.◌∷◌ c (String.◌∷◌ d String.[]))) == "src/"
    then some rest
    else none
behind_src _ = none

-- `src/x.ts` as `dist/x.js`
abbrev compiled_in : Option String → Option String
compiled_in none = none
compiled_in (some t) = some ("dist/" <> t <> ".js")

abbrev compiled_at : Option String → Option String
compiled_at none = none
compiled_at (some rest) = compiled_in (before_suffix ".ts" rest)

abbrev pub compiled_path : String → Option String
compiled_path value = compiled_at (behind_src value)

abbrev pick_compiled : Process → String → String → Option String → String
pick_compiled process value cwd none = value
pick_compiled process value cwd (some compiled) =
    if process.file_exists cwd compiled then compiled else value

abbrev pub resolve_entrypoint : Process → String → String → String → String
resolve_entrypoint process value type cwd =
    if type == "node_file" then pick_compiled process value cwd (compiled_path value) else value

abbrev custom_command : Process → AgentManifest → Bool → String
custom_command process manifest is_node =
    if is_node
    then or_else (host_field (λ h. h.node) manifest.host) process.exec_path
    else or_else (host_field (λ h. h.python) manifest.host) "python3"

abbrev custom_args : Bool → String → String → List String → List String
custom_args is_node type entrypoint more =
    if is_node then entrypoint ∷ more else python_args type entrypoint more

abbrev pub custom_env : Process → BootstrapPayload → AgentManifest → Bool → String → Dict String
custom_env process bootstrap manifest is_node value =
    let env =
      insert "EXAMPLE_AGENT_ENTRYPOINT" value
        (spread (spread process.env (own_env manifest)) (build_agent_env bootstrap "custom")) in
    if is_node then env else insert "PYTHONUNBUFFERED" "1" env

abbrev pub custom_launch :
    Process → AgentManifest → BootstrapPayload → Option Entrypoint → Option PreparedLaunch
custom_launch process manifest bootstrap none = none
custom_launch process manifest bootstrap (some e) =
    let is_node = e.type == "node_file" in
    let cwd = own_cwd process manifest in
    some (record {
      command = custom_command process manifest is_node;
      args =
          custom_args is_node e.type (resolve_entrypoint process e.value e.type cwd)
            (own_args manifest);
      env = custom_env process bootstrap manifest is_node e.value;
      cwd = cwd;
      startup_timeout_ms = own_timeout 15000 manifest;
    })

unfoldable pub prepare_custom : Process → AgentManifest → BootstrapPayload → Option PreparedLaunch
unfolding spread insert before_suffix
prepare_custom process manifest bootstrap =
    custom_launch process manifest bootstrap manifest.entrypoint
