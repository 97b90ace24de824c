-- ===== src/Registry/Includes.antt =====
-- src/registry/include-resolver.ts: a YAML file and what it includes. The files, the functions of
-- `path` and the two parsers are parameters. The parser of YAML builds each `!include` when it comes
-- to it; a text that it refuses is known by the includes before the fault.
pub mod Inside
pub mod Contained
pub mod Ending
mod Tests
use examples_service.Common.{
  ℕ, zero, suc, String, ◌<>◌, Bool, true, false, not, ◌&&◌, ◌||◌, List, [], ◌∷◌,
}
use examples_service.Common.{
  ◌==◌, string_eq, if◌then◌else◌, contains, starts_with, Option, none, some, ◌⊎◌, inl, inr,
}
use examples_service.Common.Text.{truthy}
use examples_service.Js.{Value, null, arr, obj, Items, nil, cons, Fields, end, field}
use examples_service.Common.Words.{lower, trim, trim_start, trim_end, before_suffix}
use examples_service.Errors.{
  AppException, app_exception, invalid_pack_data, internal_server_error, Result, ok, err,
}

pub data File : Type 0 where
  absent : File
  unreadable readable : String → File

mutual
  -- The nodes of a document; a `plain` one is a scalar without the tag.
  pub data Node : Type 0 where
    plain : Value → Node
    included : String → Node
    sequence : Nodes → Node
    mapping : Entries → Node

  pub data Nodes : Type 0 where
    no_nodes : Nodes
    node : Node → Nodes → Nodes

  pub data Entries : Type 0 where
    no_entries : Entries
    entry : String → Node → Entries → Entries

pub data Document : Type 0 where
  complete : Node → Document
  broken : List String → String → Document

-- How a call ends: in an `AppException`, in another error, with its message, or with a value.
pub data Load {ℓ} (A : Type ℓ) : Type ℓ where
  out_of_fuel : Load A
  thrown : AppException → Load A
  failed : String → Load A
  loaded : A → Load A

abbrev pub and_then {ℓ κ} : {A : Type ℓ} {B : Type κ} → Load A → (A → Load B) → Load B
and_then out_of_fuel next = out_of_fuel
and_then (thrown e) next = thrown e
and_then (failed reason) next = failed reason
and_then (loaded a) next = next a

abbrev pub invalid_data : String → AppException
invalid_data message = app_exception invalid_pack_data message internal_server_error

abbrev fail : String → String → Result String
fail message parent = err (invalid_data (message <> " (in " <> parent <> ")"))

-- What `yaml.load` makes of a document, when `construct` gives the value of an include.
unfoldable mutual
  pub construct : (String → Load Value) → Node → Load Value
  construct include (plain v) = loaded v
  construct include (included argument) = include argument
  construct include (sequence ns) =
      and_then (construct_nodes include ns) (λ items. loaded (arr items))
  construct include (mapping es) = and_then (construct_entries include es) (λ fs. loaded (obj fs))

  construct_nodes : (String → Load Value) → Nodes → Load Items
  construct_nodes include no_nodes = loaded nil
  construct_nodes include (node n ns) =
      and_then (construct include n)
        (λ v. and_then (construct_nodes include ns) (λ items. loaded (cons v items)))

  construct_entries : (String → Load Value) → Entries → Load Fields
  construct_entries include no_entries = loaded end
  construct_entries include (entry k n es) =
      and_then (construct include n)
        (λ v. and_then (construct_entries include es) (λ fs. loaded (field k v fs)))

unfoldable pub construct_broken : (String → Load Value) → List String → String → Load Value
construct_broken include [] reason = failed reason
construct_broken include (argument ∷ arguments) reason =
    and_then (include argument) (λ v. construct_broken include arguments reason)

abbrev pub construct_document : (String → Load Value) → Document → Load Value
construct_document include (complete n) = construct include n
construct_document include (broken arguments reason) = construct_broken include arguments reason

-- The `catch` of `parseYamlContent`.
abbrev pub wrap : String → Load Value → Load Value
wrap path (failed reason) = thrown (invalid_data ("invalid YAML in " <> path <> ": " <> reason))
wrap path l = l

abbrev supported_extensions : List String
supported_extensions = ".yaml" ∷ ".yml" ∷ ".json" ∷ []

abbrev pub is_there : File → Bool
is_there absent = false
is_there _ = true

abbrev ends_with_separator : Option String → Bool
ends_with_separator none = false
ends_with_separator (some stem) = true

-- `root` is `path.resolve(packsRoot)`; `extension` is `path.extname`, and the separator is that of
-- POSIX.
pub record Paths : Type 0 where
  pub root : String
  pub directory : String → String
  pub resolve : String → String → String
  pub extension : String → String

unfoldable pub is_inside : Paths → String → Bool
unfolding before_suffix
is_inside paths resolved =
    let root = paths.root in
    let boundary = if ends_with_separator (before_suffix "/" root) then root else root <> "/" in
    resolved == root || starts_with resolved boundary

pub record Parsers : Type 0 where
  pub parse_yaml : String → Document
  pub parse_json : String → String ⊎ Value

abbrev pub load_resolved :
    (List String → String → Load Value) → List String → Result String → Load Value
load_resolved load visited (err e) = thrown e
load_resolved load visited (ok resolved) = load (resolved ∷ visited) resolved

abbrev pub from_json : String → String ⊎ Value → Load Value
from_json path (inl reason) = thrown (invalid_data ("invalid JSON in " <> path <> ": " <> reason))
from_json path (inr v) = loaded v

-- `readFileSync`, and what is done with the text.
abbrev pub with_text : String → File → (String → Load Value) → Load Value
with_text path absent next = failed ("ENOENT: no such file or directory, open '" <> path <> "'")
with_text path (unreadable reason) next = failed reason
with_text path (readable content) next = next content

module _ (files : String → File) (paths : Paths) (parsers : Parsers) where
  unfoldable pub resolve_include_path : List String → String → String → Result String
  unfolding lower
  resolve_include_path visited parent argument =
      let resolved = paths.resolve (paths.directory parent) argument in
      let ext = lower (paths.extension resolved) in
      if not (truthy argument)
      then fail "!include requires a non-empty string path" parent
      else if not (is_inside paths resolved)
      then fail ("!include path escapes PACKS_DIR: " <> argument) parent
      else if not (contains supported_extensions ext)
      then fail ("!include unsupported extension \"" <> ext <> "\" for " <> argument) parent
      else if not (is_there (files resolved))
      then fail ("!include target not found: " <> argument) parent
      else if contains visited resolved
      then fail ("!include cycle detected at " <> argument) parent
      else ok resolved

  -- The `construct` of `buildSchema`.
  abbrev pub include_from :
      (List String → String → Load Value) → List String → String → String → Load Value
  include_from load visited parent argument =
      load_resolved load visited (resolve_include_path visited parent argument)

  abbrev pub parse_yaml_content : (String → Load Value) → String → String → Load Value
  parse_yaml_content include path content =
      if truthy (trim content)
      then wrap path (construct_document include (parsers.parse_yaml content))
      else loaded null

  abbrev pub parse_json_content : String → String → Load Value
  parse_json_content path content =
      if truthy (trim content) then from_json path (parsers.parse_json content) else loaded null

  abbrev pub parse_content : (String → Load Value) → String → String → Load Value
  parse_content include path content =
      if lower (paths.extension path) == ".json"
      then parse_json_content path content
      else parse_yaml_content include path content

  unfoldable pub load_file : ℕ → List String → String → Load Value
  unfolding construct construct_broken trim_start trim_end lower
  load_file zero visited path = out_of_fuel
  load_file (suc fuel) visited path =
      with_text path (files path) (parse_content (include_from (load_file fuel) visited path) path)

  unfoldable pub load_yaml_with_includes : ℕ → String → Load Value
  unfolding construct construct_broken trim_start trim_end
  load_yaml_with_includes fuel path =
      with_text path (files path)
        (parse_yaml_content (include_from (load_file fuel) (path ∷ []) path) path)
