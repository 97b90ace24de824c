-- ===== src/Registry/Disk.antt =====
-- What src/registry/file-registry.loader.ts and the scripts of scripts/scenario/ see of the disk:
-- the files and directories, `path`, and YAML read through src/registry/include-resolver.ts.
use examples_service.Common.{ℕ, String, Bool, true, false, Option, none, some, List, [], ◌||◌}
use examples_service.Common.Words.{before_suffix}
use examples_service.Js.{Value}
use examples_service.Registry.Includes.{
  File, Paths, Parsers, Load, load_yaml_with_includes, is_there, wrap,
}

-- `entries` is `readdir`, which fails where there is no directory; `is_directory` is false where
-- `stat` fails. The fuel is that of the nested includes.
pub record Disk : Type 0 where
  pub files : String → File
  pub paths : Paths
  pub parsers : Parsers
  pub fuel : ℕ
  pub entries : String → Option (List String)
  pub is_directory : String → Bool
  pub join : String → String → String

abbrev pub is_some {ℓ} : {A : Type ℓ} → Option A → Bool
is_some none = false
is_some (some a) = true

abbrev pub or_nothing : Option (List String) → List String
or_nothing none = []
or_nothing (some names) = names

-- `readdir(dir).catch(() => [])`
abbrev pub listing : Disk → String → List String
listing disk dir = or_nothing (disk.entries dir)

abbrev pub exists : Disk → String → Bool
exists disk path = is_there (disk.files path)

unfoldable pub ends_with : String → String → Bool
unfolding before_suffix
ends_with text suffix = is_some (before_suffix suffix text)

abbrev pub is_yaml : String → Bool
is_yaml file = ends_with file ".yaml" || ends_with file ".yml"

unfoldable pub load_yaml : Disk → String → Load Value
unfolding load_yaml_with_includes
load_yaml disk path = load_yaml_with_includes disk.files disk.paths disk.parsers disk.fuel path

-- `parseYamlFile`
abbrev pub parse_yaml_file : Disk → String → Load Value
parse_yaml_file disk path = wrap path (load_yaml disk path)
