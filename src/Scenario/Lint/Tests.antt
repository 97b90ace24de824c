-- ===== src/Scenario/Lint/Tests.antt =====
-- A pack that passes the linting, with a warning about a file that nothing includes.
use examples_service.Common.{
  String, ◌<>◌, true, false, List, Option, ◌≡◌, refl, none, some, [], ◌∷◌, ◌==◌, string_eq, inr,
  if◌then◌else◌, contains,
}
use examples_service.Common.Words.{trim_start, trim_end}
use examples_service.Common.Text.{show_ℕ}
use examples_service.Js.{Value, str, null, obj, arr, cons, nil, field, end, get, is_truthy, to_text}
use examples_service.Registry.Includes.{
  File, absent, unreadable, readable, loaded, complete, plain, load_yaml_with_includes, construct,
}
use examples_service.Registry.Disk.{load_yaml, ends_with}
use examples_service.Scenario.Ending.{done}
use examples_service.Scenario.Lint.Finding.{Tree, each, each_item}
use examples_service.Scenario.Lint.Discover.{
  list_pack_dirs, list_scenario_version_dirs, gather_all_includes, include_arguments, add_all,
}
use examples_service.Scenario.Lint.Pack.{
  is_slug, lint_templates, lint_orphans, lint_scenario, lint_version, lint_pack,
}
use examples_service.Scenario.Lint.{LintOutcome, log_line, load_known_policies, run_lint}
use examples_service.Scenario.Lint.Laws.{is_sound}
use examples_service.Scenario.Lint.Sound.{run_lint-is_sound}

abbrev pack_document : Value
pack_document = obj (field "metadata" (obj (field "slug" (str "p") end)) end)

abbrev scenario_document : Value
scenario_document = obj (
    field "metadata" (obj (field "scenario" (str "s") end)) (
      field "spec"
        (obj (
          field "launch"
            (obj (
              field "participants" (arr (cons (obj (field "agentRef" (str "fraud-agent") end)) nil))
                (field "commitments" (arr (cons (obj (field "description" (str "Pay.") end)) nil))
                  end)))
            end))
        end))

abbrev directories : String → Option (List String)
directories path =
    if path == "/p/scenarios"
    then some ("s" ∷ [])
    else if path == "/p/scenarios/s"
    then some ("1" ∷ [])
    else if path == "/p/scenarios/s/1/data"
    then some ("d" ∷ [])
    else none

abbrev files : String → File
files path =
    if path == "/p/pack.yaml"
    then readable "pack"
    else if path == "/p/scenarios/s/1/scenario.yaml"
    then readable "scenario"
    else if contains
        ("/p" ∷ "/p/scenarios" ∷ "/p/scenarios/s" ∷ "/p/scenarios/s/1" ∷ "/p/scenarios/s/1/data"
          ∷ "/p/scenarios/s/1/data/d" ∷ [])
        path
    then unreadable "EISDIR"
    else absent

abbrev tree : Tree
tree = record {
  disk = record {
    files = files;
    paths = record {
      root = "/";
      directory = λ path. "/";
      resolve = λ directory argument. argument;
      extension = λ path. ".yaml";
    };
    parsers = record {
      parse_yaml = λ content.
          complete (plain (if content == "pack" then pack_document else scenario_document));
      parse_json = λ content. inr null;
    };
    fuel = 1;
    entries = directories;
    is_directory = λ path. contains ("/p" ∷ "/p/scenarios/s" ∷ "/p/scenarios/s/1" ∷ []) path;
    join = λ a b. a <> "/" <> b;
  };
  is_entry_directory = λ path. false;
  is_file = λ path. path == "/p/scenarios/s/1/data/d";
  fault = λ path. "ENOTDIR";
}

abbrev known : List String
known = "fraud-agent" ∷ []

abbrev outcome : LintOutcome
outcome = record {
  printed =
      log_line "  WARN  /p/scenarios/s/1/data/d: data file is not referenced by any !include"
      ∷ log_line (
          "scenario:lint  "
          <> show_ℕ 1
          <> " pack(s) — "
          <> show_ℕ 0
          <> " error(s), "
          <> show_ℕ 1
          <> " warning(s)")
      ∷ [];
  code = 0;
}

one_pack : list_pack_dirs tree "/p" ≡ done ("/p" ∷ [])
unfolding list_pack_dirs
one_pack = refl

one_version : list_scenario_version_dirs tree "/p" ≡ done ("/p/scenarios/s/1" ∷ [])
unfolding list_scenario_version_dirs
one_version = refl

passes : run_lint tree (λ path. path) known (λ path. path) "/p" ≡ done outcome
unfolding run_lint each lint_pack load_known_policies list_pack_dirs load_yaml
    load_yaml_with_includes construct trim_start trim_end lint_version lint_scenario lint_templates
    lint_orphans gather_all_includes include_arguments add_all each_item is_slug get is_truthy
    to_text list_scenario_version_dirs ends_with
passes = refl

run_lint-is_sound_example :
    (scenario : Value) × (load_yaml tree.disk "/p/scenarios/s/1/scenario.yaml" ≡ loaded scenario)
    × (is_sound known scenario ≡ true)
run_lint-is_sound_example =
    run_lint-is_sound tree (λ path. path) known (λ path. path) "/p" "/p" "/p/scenarios/s/1"
      ("/p" ∷ []) ("/p/scenarios/s/1" ∷ []) outcome one_pack refl one_version refl passes refl
