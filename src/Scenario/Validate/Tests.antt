-- ===== src/Scenario/Validate/Tests.antt =====
-- A scenario that passes, and one whose placeholder nothing gives.
use examples_service.Common.{
  ◌<>◌, false, ◌≡◌, refl, none, [], ◌∷◌, ◌==◌, string_eq, inr, if◌then◌else◌, all,
}
use examples_service.Common.Words.{trim_start, trim_end}
use examples_service.Common.Text.{split}
use examples_service.Js.{
  Value, str, num, null, obj, arr, cons, nil, Fields, field, end, get, has, put, is_truthy,
}
use examples_service.Compiler.Merge.{extract_schema_defaults}
use examples_service.Compiler.Substitute.{substitute}
use examples_service.Compiler.Substitute.Placeholder.{placeholder_at}
use examples_service.Registry.Includes.{
  absent, readable, loaded, complete, plain, load_yaml_with_includes, construct,
}
use examples_service.Registry.Disk.{Disk, load_yaml}
use examples_service.Compiler.Outcome.{property}
use examples_service.Scenario.Ending.{done, schema_defaults}
use examples_service.Scenario.Report.{Schemas, no_findings}
use examples_service.Scenario.Placeholders.{collect_placeholders, collect_text, path_exists}
use examples_service.Scenario.Placeholders.Laws.{is_ok, is_resolved, substitute-collect}
use examples_service.Scenario.Validate.{run_validate, check_scenario}
use examples_service.Scenario.Validate.Checks.{
  collect_all, placeholder_errors, check_agents, check_commitments, source_of,
}
use examples_service.Scenario.Validate.Fixtures.{check_fixtures}
use examples_service.Scenario.Validate.Templates.{check_templates}
use examples_service.Scenario.Validate.Laws.{Substitutes, run_validate-Substitutes}

abbrev launch : Value
launch = obj (
    field "contextTemplate" (obj (field "text" (str "{{ inputs.amount }} due") end)) (
      field "participants"
        (arr (cons (obj (field "id" (str "f") (field "agentRef" (str "fraud-agent") end))) nil))
        (field "commitments"
          (arr (cons (obj (field "id" (str "c") (field "description" (str "Pay.") end))) nil))
          end)))

abbrev schema : Value
schema =
    obj (field "properties" (obj (field "amount" (obj (field "default" (num "5") end)) end)) end)

abbrev scenario : Value
scenario = obj (
    field "apiVersion" (str "scenarios.macp.dev/v1") (
      field "kind" (str "ScenarioVersion") (
        field "metadata"
          (obj
            (field "pack" (str "p") (field "scenario" (str "s") (field "version" (str "1") end))))
          (field "spec"
            (obj (field "inputs" (obj (field "schema" schema end)) (field "launch" launch end)))
            end))))

abbrev disk : Disk
disk = record {
  files = λ path. if path == "/p/s.yaml" then readable "s" else absent;
  paths = record {
    root = "/p";
    directory = λ path. "/p";
    resolve = λ directory argument. argument;
    extension = λ path. ".yaml";
  };
  parsers = record {
    parse_yaml = λ content. complete (plain scenario);
    parse_json = λ content. inr null;
  };
  fuel = 1;
  entries = λ path. none;
  is_directory = λ path. false;
  join = λ a b. a <> "/" <> b;
}

abbrev schemas : Schemas
schemas = record { compile_fault = λ schema. none; faults = λ schema inputs. none }

abbrev defaults : Fields
defaults = field "amount" (num "5") end

passes :
    run_validate disk schemas ("fraud-agent" ∷ []) (λ path. path) "/p/s.yaml" ≡ done no_findings
unfolding run_validate load_yaml load_yaml_with_includes construct trim_start trim_end
    check_scenario schema_defaults extract_schema_defaults collect_all collect_placeholders
    collect_text placeholder_at placeholder_errors path_exists split check_agents check_commitments
    check_templates check_fixtures get has put is_truthy
passes = refl

read_file : load_yaml disk "/p/s.yaml" ≡ loaded scenario
unfolding load_yaml load_yaml_with_includes construct trim_start trim_end
read_file = refl

given : schema_defaults schema ≡ done defaults
unfolding schema_defaults extract_schema_defaults get has put is_truthy
given = refl

run_validate-Substitutes_example :
    Substitutes (source_of defaults) (property "contextTemplate" launch)
    × Substitutes (source_of defaults) (property "metadataTemplate" launch)
    × Substitutes (source_of defaults) (property "kickoffTemplate" launch)
    × Substitutes (source_of defaults) (property "commitments" launch)
unfolding get
run_validate-Substitutes_example =
    run_validate-Substitutes disk schemas ("fraud-agent" ∷ []) (λ path. path) "/p/s.yaml" scenario
      no_findings defaults refl read_file refl given passes refl

substitute-collect_example :
    all
      (is_resolved (source_of defaults))
      (collect_placeholders (str "{{ inputs.amount }} of {{ inputs.limit }}") [])
    ≡ is_ok (substitute (source_of defaults) (str "{{ inputs.amount }} of {{ inputs.limit }}"))
substitute-collect_example =
    substitute-collect (source_of defaults) (str "{{ inputs.amount }} of {{ inputs.limit }}") []
