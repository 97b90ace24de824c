-- ===== src/Config.antt =====
-- src/config/app-config.service.ts: the settings, read from the environment. What `Number` and
-- `JSON.parse` make of a text is a parameter; a setting that is a number is a natural one here.
mod Laws
mod Tests
use examples_service.Common.{
  ℕ, ◌+◌, String, ◌<>◌, Bool, true, false, not, ◌&&◌, ◌||◌, Option, none, some,
}
use examples_service.Common.{
  List, [], ◌∷◌, ◌==◌, string_eq, nat_eq, leb, if◌then◌else◌, filter, map, contains,
}
use examples_service.Common.Dict.{Dict, lookup, insert}
use examples_service.Common.Text.{truthy, split}
use examples_service.Common.Words.{lower, trim, trim_start, trim_end}
use examples_service.Js.{Value, obj, Fields, end, field}
use examples_service.Errors.{
  AppException, app_exception, invalid_config, internal_server_error, Result, ok, err, ◌>>=◌,
}

abbrev pub config_error {ℓ} : {A : Type ℓ} → String → Result A
config_error message = err (app_exception invalid_config message internal_server_error)

abbrev pub boolean_words : List String
boolean_words = "1" ∷ "true" ∷ "yes" ∷ "on" ∷ []

abbrev pub boolean_of : Bool → Option String → Bool
boolean_of default none = default
boolean_of default (some raw) = contains boolean_words (lower raw)

abbrev pub string_list_of : Option String → List String
string_list_of none = []
string_list_of (some raw) = if truthy raw then filter truthy (map trim (split "," raw)) else []

-- The loop over the entries of the parsed object.
unfoldable pub scopes_of : String → Fields → Dict Fields → Result (Dict Fields)
unfolding trim_start trim_end
scopes_of name end result = ok result
scopes_of name (field sender (obj scopes) entries) result =
    if truthy (trim sender)
    then scopes_of name entries (insert sender scopes result)
    else scopes_of name entries result
scopes_of name (field sender scopes entries) result =
    let rest = scopes_of name entries result in
    if truthy (trim sender)
    then config_error (name <> "[" <> sender <> "] must be a JSON object of scope fields")
    else rest

abbrev pub scopes_of_parsed : String → Option Value → Result (Dict Fields)
scopes_of_parsed name none = config_error (name <> " must be valid JSON (object of sender→scopes)")
scopes_of_parsed name (some (obj entries)) = scopes_of name entries []
scopes_of_parsed name (some v) = config_error (name <> " must be a JSON object keyed by sender")

pub record AppConfig : Type 0 where
  pub node_env : String
  pub is_development : Bool
  pub port : ℕ
  pub host : String
  pub cors_origins : List String
  pub packs_dir : String
  pub registry_cache_ttl_ms : ℕ
  pub auth_api_keys : List String
  pub log_level : String
  pub auto_bootstrap_example_agents : Bool
  pub register_policies_on_launch : Bool
  pub example_agent_python_path : String
  pub example_agent_node_path : String
  pub runtime_address : String
  pub runtime_tls : Bool
  pub runtime_allow_insecure : Bool
  pub cancel_callback_host : String
  pub cancel_callback_port_base : ℕ
  pub cancel_callback_path : String
  pub auth_service_url : String
  pub auth_service_timeout_ms : ℕ
  pub auth_token_ttl_seconds : ℕ
  pub auth_scope_overrides : Dict Fields

-- `process.env[name] ?? otherwise`
abbrev text_of : String → Option String → String
text_of otherwise none = otherwise
text_of otherwise (some raw) = raw

-- The environment, `process.execPath`, and the two readers.
pub record Environment : Type 0 where
  pub variables : Dict String
  pub exec_path : String
  pub number : String → Option ℕ
  pub parse : String → Option Value

module _ (env : Environment) where
  abbrev pub read_boolean : String → Bool → Bool
  read_boolean name default = boolean_of default (lookup name env.variables)

  abbrev finite_or : ℕ → Option ℕ → ℕ
  finite_or default none = default
  finite_or default (some n) = n

  abbrev number_of : ℕ → Option String → ℕ
  number_of default none = default
  number_of default (some raw) = finite_or default (env.number raw)

  abbrev pub read_number : String → ℕ → ℕ
  read_number name default = number_of default (lookup name env.variables)

  abbrev pub read_string_list : String → List String
  read_string_list name = string_list_of (lookup name env.variables)

  abbrev scopes_of_raw : String → Option String → Result (Dict Fields)
  scopes_of_raw name none = ok []
  scopes_of_raw name (some raw) =
      if truthy raw then scopes_of_parsed name (env.parse raw) else ok []

  abbrev pub read_scopes_map : String → Result (Dict Fields)
  read_scopes_map name = scopes_of_raw name (lookup name env.variables)

  abbrev read_text : String → String → String
  read_text name otherwise = text_of otherwise (lookup name env.variables)

  abbrev with_scopes : Dict Fields → AppConfig
  with_scopes overrides =
      let node_env = read_text "NODE_ENV" "development" in
      record {
        node_env = node_env;
        is_development = node_env == "development";
        port = read_number "PORT" 3000;
        host = read_text "HOST" "0.0.0.0";
        cors_origins = read_string_list "CORS_ORIGIN";
        packs_dir = read_text "PACKS_DIR" "./packs";
        registry_cache_ttl_ms = read_number "REGISTRY_CACHE_TTL_MS" 0;
        auth_api_keys = read_string_list "AUTH_API_KEYS";
        log_level = read_text "LOG_LEVEL" "info";
        auto_bootstrap_example_agents = read_boolean "AUTO_BOOTSTRAP_EXAMPLE_AGENTS" true;
        register_policies_on_launch = read_boolean "REGISTER_POLICIES_ON_LAUNCH" true;
        example_agent_python_path = read_text "EXAMPLE_AGENT_PYTHON_PATH" "python3";
        example_agent_node_path = read_text "EXAMPLE_AGENT_NODE_PATH" env.exec_path;
        runtime_address = read_text "MACP_RUNTIME_ADDRESS" "";
        runtime_tls = read_boolean "MACP_RUNTIME_TLS" true;
        runtime_allow_insecure = read_boolean "MACP_RUNTIME_ALLOW_INSECURE" false;
        cancel_callback_host = read_text "MACP_CANCEL_CALLBACK_HOST" "127.0.0.1";
        cancel_callback_port_base = read_number "MACP_CANCEL_CALLBACK_PORT_BASE" 0;
        cancel_callback_path = read_text "MACP_CANCEL_CALLBACK_PATH" "/agent/cancel";
        auth_service_url = read_text "MACP_AUTH_SERVICE_URL" "";
        auth_service_timeout_ms = read_number "MACP_AUTH_SERVICE_TIMEOUT_MS" 5000;
        auth_token_ttl_seconds = read_number "MACP_AUTH_TOKEN_TTL_SECONDS" 3600;
        auth_scope_overrides = overrides;
      }

  -- The constructor, which throws where the scopes cannot be read.
  unfoldable pub app_config : Result AppConfig
  unfolding scopes_of lower
  app_config = do overrides ← read_scopes_map "MACP_AUTH_SCOPES_JSON"; ok (with_scopes overrides)

-- `validateAuthConfig`, on which `onModuleInit` ends.
abbrev pub validate_auth_config : AppConfig → Result {0} Unit
validate_auth_config config =
    if not (truthy config.auth_service_url)
    then config_error "MACP_AUTH_SERVICE_URL is required (points at the auth-service base URL)"
    else if config.auth_token_ttl_seconds == 0
    then config_error "MACP_AUTH_TOKEN_TTL_SECONDS must be a positive integer"
    else ok tt
