-- ===== src/Hosting/Adapters/Checks.antt =====
-- The `validateManifest` of the four adapters.
use examples_service.Common.{String, ◌<>◌, Bool, true, false, not, ◌&&◌, ◌||◌, Option, none, some}
use examples_service.Common.{◌==◌, string_eq, if◌then◌else◌, List, [], ◌∷◌, ◌++◌}
use examples_service.Common.Text.{truthy}
use examples_service.Js.{Value, str, Fields, get, is_truthy}
use examples_service.Hosting.Contracts.{Entrypoint, AgentManifest, ManifestValidationResult}
use examples_service.Hosting.Adapters.{or_else}

-- `if (wrong) errors.push(message)`
abbrev pub when : Bool → String → List String
when wrong message = if wrong then message ∷ [] else []

abbrev pub from_errors : List String → ManifestValidationResult
from_errors [] = record { valid = true; errors = [] }
from_errors (e ∷ es) = record { valid = false; errors = e ∷ es }

abbrev pub entry_value : Option Entrypoint → String
entry_value none = ""
entry_value (some e) = e.value

abbrev pub entry_type : Option Entrypoint → String
entry_type none = ""
entry_type (some e) = e.type

abbrev pub is_framework : String → Option String → Bool
is_framework own none = false
is_framework own (some f) = f == own

abbrev pub framework_errors : String → Option String → List String
framework_errors own f =
    when (not (is_framework own f))
      ("expected framework \"" <> own <> "\", got \"" <> or_else f "undefined" <> "\"")

abbrev pub value_errors : Option Entrypoint → List String
value_errors e = when (not (truthy (entry_value e))) "entrypoint.value is required"

abbrev pub is_python : String → Bool
is_python t = t == "python_module" || t == "python_file"

abbrev pub type_errors : String → String → List String
type_errors own t =
    when (truthy t && not (is_python t))
      (own <> " entrypoint type must be python_module or python_file, got \"" <> t <> "\"")

-- `config.key && typeof config.key === 'string'`
abbrev pub is_text : Value → Bool
is_text (str s) = truthy s
is_text _ = false

abbrev pub config_errors : String → Fields → List String
config_errors key config =
    when (not (is_text (get key config)))
      ("frameworkConfig." <> key <> " is required and must be a string")

abbrev pub is_invoke_mode : Value → Bool
is_invoke_mode (str s) = s == "invoke" || s == "stream" || s == "batch"
is_invoke_mode _ = false

abbrev pub invoke_mode_errors : Fields → List String
invoke_mode_errors config =
    when (is_truthy (get "invokeMode" config) && not (is_invoke_mode (get "invokeMode" config)))
      "frameworkConfig.invokeMode must be one of invoke, stream, batch"

abbrev pub langchain_config : Option Fields → List String
langchain_config none = []
langchain_config (some config) =
    config_errors "factory" config
    ++ config_errors "inputMapper" config
    ++ config_errors "outputMapper" config
    ++ invoke_mode_errors config

abbrev pub langgraph_config : Option Fields → List String
langgraph_config none = []
langgraph_config (some config) =
    config_errors "graphFactory" config
    ++ config_errors "inputMapper" config
    ++ config_errors "outputMapper" config

abbrev pub crewai_config : Option Fields → List String
crewai_config none = []
crewai_config (some config) =
    config_errors "crewFactory" config
    ++ config_errors "inputMapper" config
    ++ config_errors "outputMapper" config

unfoldable pub validate_langgraph : AgentManifest → ManifestValidationResult
unfolding is_truthy
validate_langgraph manifest = from_errors (
    framework_errors "langgraph" manifest.framework
    ++ value_errors manifest.entrypoint
    ++ type_errors "langgraph" (entry_type manifest.entrypoint)
    ++ langgraph_config manifest.framework_config)

unfoldable pub validate_langchain : AgentManifest → ManifestValidationResult
unfolding is_truthy
validate_langchain manifest = from_errors (
    framework_errors "langchain" manifest.framework
    ++ value_errors manifest.entrypoint
    ++ type_errors "langchain" (entry_type manifest.entrypoint)
    ++ langchain_config manifest.framework_config)

unfoldable pub validate_crewai : AgentManifest → ManifestValidationResult
unfolding is_truthy
validate_crewai manifest = from_errors (
    framework_errors "crewai" manifest.framework
    ++ value_errors manifest.entrypoint
    ++ type_errors "crewai" (entry_type manifest.entrypoint)
    ++ crewai_config manifest.framework_config)

unfoldable pub validate_custom : AgentManifest → ManifestValidationResult
validate_custom manifest =
    from_errors (framework_errors "custom" manifest.framework ++ value_errors manifest.entrypoint)
