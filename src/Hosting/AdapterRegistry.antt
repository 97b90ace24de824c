-- ===== src/Hosting/AdapterRegistry.antt =====
-- src/hosting/host-adapter-registry.ts and src/hosting/manifest-validator.ts: the adapters by
-- framework, and the check of a manifest by the adapter of its framework.
pub mod Laws
pub mod Fitting
pub mod Accepting
pub mod Accepted
use examples_service.Common.{
  String, ◌<>◌, Bool, true, false, not, Option, none, some, List, [], ◌++◌,
}
use examples_service.Common.{◌∷◌}
use examples_service.Common.Dict.{Dict, lookup, insert, keys}
use examples_service.Common.Text.{truthy}
use examples_service.Hosting.Contracts.{
  Entrypoint, AgentManifest, ManifestValidationResult, BootstrapPayload,
}
use examples_service.Hosting.Supervisor.{PreparedLaunch}
use examples_service.Hosting.Adapters.{or_else}
use examples_service.Hosting.Adapters.Checks.{when, from_errors}
use examples_service.Hosting.Adapters.Checks.{
  validate_langgraph, validate_langchain, validate_crewai, validate_custom,
}
use examples_service.Hosting.Adapters.Launches.{Process}
use examples_service.Hosting.Adapters.Launches.{
  prepare_langgraph, prepare_langchain, prepare_crewai, prepare_custom,
}

pub record AgentHostAdapter : Type 0 where
  pub framework : String
  pub validate_manifest : AgentManifest → ManifestValidationResult
  pub prepare_launch : Process → AgentManifest → BootstrapPayload → Option PreparedLaunch

abbrev pub langgraph : AgentHostAdapter
langgraph = record {
  framework = "langgraph";
  validate_manifest = validate_langgraph;
  prepare_launch = prepare_langgraph;
}

abbrev pub langchain : AgentHostAdapter
langchain = record {
  framework = "langchain";
  validate_manifest = validate_langchain;
  prepare_launch = prepare_langchain;
}

abbrev pub crewai : AgentHostAdapter
crewai = record {
  framework = "crewai";
  validate_manifest = validate_crewai;
  prepare_launch = prepare_crewai;
}

abbrev pub custom : AgentHostAdapter
custom = record {
  framework = "custom";
  validate_manifest = validate_custom;
  prepare_launch = prepare_custom;
}

abbrev pub register : AgentHostAdapter → Dict AgentHostAdapter → Dict AgentHostAdapter
register adapter adapters = insert adapter.framework adapter adapters

unfoldable pub registered : Dict AgentHostAdapter
unfolding insert
registered = register custom (register crewai (register langchain (register langgraph [])))

abbrev pub get_adapter : Dict AgentHostAdapter → String → Option AgentHostAdapter
get_adapter adapters framework = lookup framework adapters

abbrev is_some {ℓ} : {A : Type ℓ} → Option A → Bool
is_some none = false
is_some (some a) = true

abbrev pub has_adapter : Dict AgentHostAdapter → String → Bool
has_adapter adapters framework = is_some (lookup framework adapters)

abbrev pub list_adapters : Dict AgentHostAdapter → List String
list_adapters adapters = keys adapters

abbrev pub entrypoint_errors : Option Entrypoint → List String
entrypoint_errors none = "manifest.entrypoint is required" ∷ []
entrypoint_errors (some e) =
    when (not (truthy e.type)) "manifest.entrypoint.type is required"
    ++ when (not (truthy e.value)) "manifest.entrypoint.value is required"

abbrev pub required_errors : AgentManifest → List String
required_errors manifest =
    when (not (truthy manifest.id)) "manifest.id is required"
    ++ when (not (truthy manifest.name)) "manifest.name is required"
    ++ when (not (truthy (or_else manifest.framework ""))) "manifest.framework is required"
    ++ entrypoint_errors manifest.entrypoint

abbrev pub by_adapter : String → AgentManifest → Option AgentHostAdapter → ManifestValidationResult
by_adapter framework manifest none = from_errors (("unsupported framework: " <> framework) ∷ [])
by_adapter framework manifest (some adapter) = adapter.validate_manifest manifest

abbrev pub validate_checked :
    Dict AgentHostAdapter → AgentManifest → List String → ManifestValidationResult
validate_checked adapters manifest [] =
    let framework = or_else manifest.framework "" in
    by_adapter framework manifest (get_adapter adapters framework)
validate_checked adapters manifest (e ∷ es) = record { valid = false; errors = e ∷ es }

unfoldable pub validate : Dict AgentHostAdapter → AgentManifest → ManifestValidationResult
validate adapters manifest = validate_checked adapters manifest (required_errors manifest)
