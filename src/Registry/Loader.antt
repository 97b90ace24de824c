-- ===== src/Registry/Loader.antt =====
-- src/registry/file-registry.loader.ts: the walk over the directories of the packs. What is loaded
-- stays the parsed value that it is; the code casts it to the types of the contracts unchecked.
pub mod Gather
pub mod Laws
pub mod Sound
pub mod Complete
mod Tests
use examples_service.Common.{
  ℕ, String, ◌<>◌, Bool, true, false, not, ◌&&◌, ◌||◌, Option, none, some, List, [], ◌∷◌, ◌==◌,
  string_eq, if◌then◌else◌, starts_with,
}
use examples_service.Common.Dict.{Dict, insert}
use examples_service.Js.{Value, undefined, null, bool, num, str, is_truthy, to_text, get}
use examples_service.Compiler.Outcome.{property}
use examples_service.Registry.Includes.{
  Load, thrown, failed, loaded, out_of_fuel, and_then, invalid_data,
}
use examples_service.Registry.Disk.{
  Disk, or_nothing, listing, exists, is_yaml, ends_with, load_yaml, parse_yaml_file,
}
use examples_service.Registry.Loader.Gather.{gather, EntryMap, set_entry}

pub record VersionData : Type 0 where
  pub scenario : Value
  pub templates : EntryMap Value

pub record ScenarioData : Type 0 where
  pub versions : Dict VersionData

pub record PackData : Type 0 where
  pub pack : Value
  pub scenarios : Dict ScenarioData

pub record RegistryData : Type 0 where
  pub packs : EntryMap PackData
  pub loaded_at : ℕ

abbrev type_error {ℓ} : {A : Type ℓ} → Value → String → Load A
type_error v key =
    failed ("Cannot read properties of " <> to_text v <> " (reading '" <> key <> "')")

-- `data.key`, which is a `TypeError` at `null` and `undefined`.
abbrev pub read_property : Value → String → Load Value
read_property undefined key = type_error undefined key
read_property null key = type_error null key
read_property v key = loaded (property key v)

-- `v === text`
abbrev pub is_exactly : Value → String → Bool
is_exactly (str t) text = t == text
is_exactly v text = false

abbrev pub api_version : String
api_version = "scenarios.macp.dev/v1"

-- `data.metadata?.slug`
abbrev pub slug_of : Value → Value
slug_of v = property "slug" (property "metadata" v)

abbrev pub check_slug : String → Value → Load Value
check_slug path v =
    if not (is_truthy (slug_of v))
    then thrown (invalid_data ("missing metadata.slug in " <> path))
    else loaded v

abbrev pub check_version : String → String → Value → Value → Load Value
check_version kind path v version =
    if not (is_exactly version api_version)
    then thrown (invalid_data ("invalid apiVersion in " <> path <> ": " <> to_text version))
    else if not (is_exactly (property "kind" v) kind)
    then thrown (
        invalid_data (
          "invalid kind in "
          <> path
          <> ": expected "
          <> kind
          <> ", got "
          <> to_text (property "kind" v)))
    else loaded v

-- The checks that packs and scenarios share: `apiVersion` and `kind`.
abbrev pub check_kind : String → String → Value → Load Value
check_kind kind path v = and_then (read_property v "apiVersion") (check_version kind path v)

module _ (disk : Disk) where
  unfoldable pub load_pack_file : String → Load Value
  unfolding load_yaml get to_text is_truthy
  load_pack_file path =
      and_then (parse_yaml_file disk path)
        (λ v. and_then (check_kind "ScenarioPack" path v) (λ w. check_slug path w))

  unfoldable pub load_scenario_file : String → Load Value
  unfolding load_yaml get to_text
  load_scenario_file path =
      and_then (parse_yaml_file disk path) (λ v. check_kind "ScenarioVersion" path v)

  abbrev pub keyed_template : Value → Option (Value × Value)
  keyed_template v =
      if is_exactly (property "kind" v) "ScenarioTemplate" && is_truthy (slug_of v)
      then some (slug_of v, v)
      else none

  -- One turn of the loop over the files.
  abbrev pub template_at : String → String → Load (Option (Value × Value))
  template_at dir file =
      if is_yaml file
      then and_then (parse_yaml_file disk (disk.join dir file)) (λ v. loaded (keyed_template v))
      else loaded none

  abbrev pub add_entry {ℓ} : {V : Type ℓ} → Option (Value × V) → EntryMap V → EntryMap V
  add_entry none entries = entries
  add_entry (some (k, v)) entries = set_entry k v entries

  abbrev pub add_named {ℓ} : {V : Type ℓ} → Option (String × V) → Dict V → Dict V
  add_named none d = d
  add_named (some (k, v)) d = insert k v d

  unfoldable pub discover_templates : String → Load (EntryMap Value)
  unfolding gather load_yaml ends_with set_entry get is_truthy
  discover_templates version_dir =
      let dir = disk.join version_dir "templates" in
      gather (template_at dir) add_entry (listing disk dir) []

  unfoldable pub load_version : String → Load VersionData
  unfolding load_scenario_file discover_templates
  load_version dir = and_then (load_scenario_file (disk.join dir "scenario.yaml")) (λ s.
      and_then (discover_templates dir) (λ t. loaded (record { scenario = s; templates = t })))

  abbrev pub is_version : String → String → Bool
  is_version dir version =
      disk.is_directory (disk.join dir version)
      && exists disk (disk.join (disk.join dir version) "scenario.yaml")

  abbrev pub keyed_version : String → VersionData → Option (String × VersionData)
  keyed_version version e = some (version, e)

  abbrev pub version_at : String → String → Load (Option (String × VersionData))
  version_at dir version =
      if is_version dir version
      then and_then (load_version (disk.join dir version)) (λ e. loaded (keyed_version version e))
      else loaded none

  unfoldable pub discover_versions : String → Load (Dict VersionData)
  unfolding gather load_version insert
  discover_versions dir = gather (version_at dir) add_named (listing disk dir) []

  -- `if (versions.size > 0)`
  abbrev pub keyed_scenario : String → Dict VersionData → Option (String × ScenarioData)
  keyed_scenario slug [] = none
  keyed_scenario slug (v ∷ versions) = some (slug, record { versions = v ∷ versions })

  abbrev pub scenario_at : String → String → Load (Option (String × ScenarioData))
  scenario_at dir slug =
      if disk.is_directory (disk.join dir slug)
      then and_then (discover_versions (disk.join dir slug)) (λ vs. loaded (keyed_scenario slug vs))
      else loaded none

  unfoldable pub discover_scenarios : String → Load (Dict ScenarioData)
  unfolding gather discover_versions insert
  discover_scenarios pack_dir =
      let dir = disk.join pack_dir "scenarios" in
      gather (scenario_at dir) add_named (listing disk dir) []

  abbrev pub keyed_pack : Value → Dict ScenarioData → Value × PackData
  keyed_pack pack scenarios = (slug_of pack, record { pack = pack; scenarios = scenarios })

  abbrev pub load_pack : String → Load (Value × PackData)
  load_pack dir =
      and_then (load_pack_file (disk.join dir "pack.yaml")) (λ pack.
        and_then (discover_scenarios dir) (λ scenarios. loaded (keyed_pack pack scenarios)))

  -- The `catch` of `loadAll`: an error that is no `AppException` is logged, and the pack left out.
  abbrev pub guarded : Load (Value × PackData) → Load (Option (Value × PackData))
  guarded out_of_fuel = out_of_fuel
  guarded (thrown e) = thrown e
  guarded (failed reason) = loaded none
  guarded (loaded entry) = loaded (some entry)

  abbrev pub is_pack : String → String → Bool
  is_pack packs_dir entry =
      not (starts_with entry "_")
      && disk.is_directory (disk.join packs_dir entry)
      && exists disk (disk.join (disk.join packs_dir entry) "pack.yaml")

  abbrev pub pack_at : String → String → Load (Option (Value × PackData))
  pack_at packs_dir entry =
      if is_pack packs_dir entry
      then guarded (load_pack (disk.join packs_dir entry))
      else loaded none

  abbrev pub registry_of : ℕ → EntryMap PackData → RegistryData
  registry_of now packs = record { packs = packs; loaded_at = now }

  -- `packsDir` is the root of the paths, which is resolved; `now` is the time at the end.
  unfoldable pub load_all : ℕ → Load RegistryData
  unfolding gather load_pack_file discover_scenarios set_entry
  load_all now =
      let dir = disk.paths.root in
      and_then (gather (pack_at dir) add_entry (listing disk dir) [])
        (λ packs. loaded (registry_of now packs))
