-- ===== src/Registry/Loader/Tests.antt =====
-- A disk with one pack, one directory that is left out, and one pack whose file is empty.
use examples_service.Common.{
  suc, String, ◌<>◌, true, ◌≡◌, refl, Option, none, some, List, [], ◌∷◌, ◌==◌, string_eq, length,
  if◌then◌else◌, inr,
}
use examples_service.Common.Dict.{insert, lookup}
use examples_service.Common.Words.{trim_start, trim_end, before_suffix}
use examples_service.Js.{Value, str, null, obj, field, end, get, is_truthy, Fields}
use examples_service.Registry.Includes.{
  File, absent, readable, loaded, Paths, Parsers, complete, plain, load_yaml_with_includes,
  construct,
}
use examples_service.Registry.Disk.{Disk, load_yaml, ends_with}
use examples_service.Registry.Loader.{
  VersionData, ScenarioData, PackData, RegistryData, load_pack_file, load_scenario_file,
  discover_templates, load_version, discover_versions, discover_scenarios, load_pack, load_all,
}
use examples_service.Registry.Loader.Gather.{gather, set_entry, EntryAll}
use examples_service.Registry.Loader.Sound.{IsServed, load_all-IsServed}
use examples_service.Registry.Loader.Complete.{load_pack_complete}

abbrev header : String → Fields → Value
header kind more =
    obj (field "apiVersion" (str "scenarios.macp.dev/v1") (field "kind" (str kind) more))

abbrev pack_value : Value
pack_value = header "ScenarioPack" (field "metadata" (obj (field "slug" (str "fraud") end)) end)

abbrev scenario_value : Value
scenario_value = header "ScenarioVersion" end

abbrev template_value : Value
template_value =
    header "ScenarioTemplate" (field "metadata" (obj (field "slug" (str "large") end)) end)

abbrev parsers : Parsers
parsers = record {
  parse_yaml = λ content. complete (
      plain (
        if content == "pack"
        then pack_value
        else if content == "scenario"
        then scenario_value
        else template_value));
  parse_json = λ content. inr null;
}

abbrev pack_path : String
pack_path = "/p/fraud/pack.yaml"

abbrev empty_path : String
empty_path = "/p/empty/pack.yaml"

abbrev scenario_path : String
scenario_path = "/p/fraud/scenarios/check/1.0.0/scenario.yaml"

abbrev template_path : String
template_path = "/p/fraud/scenarios/check/1.0.0/templates/large.yaml"

abbrev files : String → File
files path =
    if path == pack_path
    then readable "pack"
    else if path == empty_path
    then readable " "
    else if path == scenario_path
    then readable "scenario"
    else if path == template_path
    then readable "template"
    else absent

abbrev entries : String → Option (List String)
entries path =
    if path == "/p"
    then some ("_draft" ∷ "empty" ∷ "fraud" ∷ [])
    else if path == "/p/fraud/scenarios"
    then some ("check" ∷ [])
    else if path == "/p/fraud/scenarios/check"
    then some ("1.0.0" ∷ [])
    else if path == "/p/fraud/scenarios/check/1.0.0/templates"
    then some ("notes.txt" ∷ "large.yaml" ∷ [])
    else none

abbrev paths : Paths
paths = record {
  root = "/p";
  directory = λ path. "/p";
  resolve = λ directory argument. argument;
  extension = λ path. ".yaml";
}

abbrev all_files : List String
all_files = pack_path ∷ empty_path ∷ scenario_path ∷ template_path ∷ []

abbrev disk : Disk
disk = record {
  files = files;
  paths = paths;
  parsers = parsers;
  fuel = suc (length all_files);
  entries = entries;
  is_directory = λ path. true;
  join = λ a b. a <> "/" <> b;
}

abbrev version : VersionData
version = record { scenario = scenario_value; templates = (str "large", template_value) ∷ [] }

abbrev pack : PackData
pack = record {
  pack = pack_value;
  scenarios = ("check", record { versions = ("1.0.0", version) ∷ [] }) ∷ [];
}

abbrev registry : RegistryData
registry = record { packs = (str "fraud", pack) ∷ []; loaded_at = 7 }

walked : load_all disk 7 ≡ loaded registry
unfolding load_all load_pack_file discover_scenarios discover_versions load_version
    load_scenario_file discover_templates gather set_entry insert load_yaml load_yaml_with_includes
    construct trim_start trim_end ends_with before_suffix get is_truthy
walked = refl

load_all-IsServed_example : (registry.loaded_at ≡ 7) × EntryAll (IsServed disk) registry.packs
load_all-IsServed_example = load_all-IsServed disk 7 registry walked

one_pack : load_pack disk "/p/fraud" ≡ loaded (str "fraud", pack)
unfolding load_pack_file discover_scenarios discover_versions load_version load_scenario_file
    discover_templates gather set_entry insert load_yaml load_yaml_with_includes construct
    trim_start trim_end ends_with before_suffix get is_truthy
one_pack = refl

load_pack_complete_example :
    (s : ScenarioData) × (e : VersionData) × (lookup "check" pack.scenarios ≡ some s)
    × (lookup "1.0.0" s.versions ≡ some e)
    × (load_version disk "/p/fraud/scenarios/check/1.0.0" ≡ loaded e)
load_pack_complete_example =
    load_pack_complete disk "/p/fraud" "check" "1.0.0" (str "fraud") pack one_pack refl refl refl
      refl
