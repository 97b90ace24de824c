-- ===== src/Registry.antt =====
-- src/contracts/registry.ts: the packs, scenarios and templates that are read from disk. The parts
-- that a template may override stay the parsed objects that they are.
mod Tests
pub mod Index
pub mod Cache
pub mod Includes
pub mod Disk
pub mod Loader
pub mod Sample
use examples_service.Common.{ℕ, String, Bool, Option, List}
use examples_service.Common.Dict.{Dict}
use examples_service.Js.{Fields}

-- `metadata` of a pack; a `PackSummary` has the same fields.
pub record PackSummary : Type 0 where
  pub slug : String
  pub name : String
  pub description : Option String
  pub tags : Option (List String)

pub record PackFile : Type 0 where
  pub api_version : String
  pub kind : String
  pub metadata : PackSummary

pub record ScenarioMetadata : Type 0 where
  pub pack : String
  pub scenario : String
  pub version : String
  pub name : String
  pub summary : Option String
  pub tags : Option (List String)
  pub deprecated : Option Bool

pub record Outputs : Type 0 where
  pub expected_decision_kinds : Option (List String)
  pub expected_signals : Option (List String)

-- `metadata` and `spec` of a scenario; `schema` is `inputs.schema`.
pub record ScenarioVersionFile : Type 0 where
  pub api_version : String
  pub kind : String
  pub metadata : ScenarioMetadata
  pub runtime : Option Fields
  pub schema : Fields
  pub launch : Fields
  pub execution : Option Fields
  pub outputs : Option Outputs

pub record Overrides : Type 0 where
  pub runtime : Option Fields
  pub launch : Option Fields
  pub execution : Option Fields

pub record ScenarioTemplateFile : Type 0 where
  pub api_version : String
  pub kind : String
  pub scenario_version : String
  pub slug : String
  pub name : String
  pub defaults : Option Fields
  pub overrides : Option Overrides

pub record ScenarioVersionEntry : Type 0 where
  pub scenario : ScenarioVersionFile
  pub templates : Dict ScenarioTemplateFile

pub record ScenarioEntry : Type 0 where
  pub versions : Dict ScenarioVersionEntry

pub record PackEntry : Type 0 where
  pub pack : PackFile
  pub scenarios : Dict ScenarioEntry

pub record RegistrySnapshot : Type 0 where
  pub packs : Dict PackEntry
  pub loaded_at : ℕ
