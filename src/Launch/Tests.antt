-- ===== src/Launch/Tests.antt =====
-- The form of a launch, in a small registry.
use examples_service.Run.Sample.{agent, catalog}
use examples_service.Common.{◌≡◌, refl, none, some, [], ◌∷◌}
use examples_service.Common.Dict.{lookup}
use examples_service.Js.{str, num, undefined, end, field, get, has, put, spread, is_truthy}
use examples_service.Errors.{ok}
use examples_service.Registry.{ScenarioVersionFile}
use examples_service.Common.Text.{cut_last, cut_first}
use examples_service.Registry.Index.{get_scenario_version, get_template, get_pack}
use examples_service.Compiler.Merge.{extract_schema_defaults, deep_merge, merge_loop, merge_value}
use examples_service.Registry.Sample.{snapshot, schema}
use examples_service.Agents.{summary_of, summarize_participants}
use examples_service.Compiler.ScenarioRef.{ScenarioRefParts, parse_scenario_ref}
use examples_service.Compiler.Outcome.{returned, bindings_of_items}
use examples_service.Compiler.Settings.{Settings}
use examples_service.Compiler.Compile.{Environment, passed, settings_for}
use examples_service.Compiler.Compile.Contracts.{CompileLaunchRequest}
use examples_service.Launch.{LaunchSchemaResponse, get_launch_schema}
use examples_service.Launch.Laws.{Shows, get_launch_schema-Shows}

abbrev env : Environment
env = record { validate = λ schema inputs. passed; session_id = "s1"; node_env = none }

abbrev request : CompileLaunchRequest
request = record {
  scenario_ref = "fraud/check@1.0.0";
  template_id = some "large";
  inputs = end;
  mode = none;
}

abbrev ref : ScenarioRefParts
ref = record { pack_slug = "fraud"; scenario_slug = "check"; version = "1.0.0" }

abbrev form : LaunchSchemaResponse
form = record {
  scenario_ref = "fraud/check@1.0.0";
  template_id = some "large";
  form_schema = schema;
  defaults = field "amount" (num "500") end;
  participants =
      record { participant_id = "fraud"; role = "fraud"; agent_ref = "fraud-agent" } ∷ [];
  agents = record (summary_of agent) { role = "fraud" } ∷ [];
  runtime = field "kind" (str "rust") (field "version" (str "v1") end);
  launch_summary = record {
    mode_name = str "decision";
    mode_version = undefined;
    configuration_version = undefined;
    policy_version = undefined;
    policy_hints = undefined;
    ttl_ms = num "2000";
    initiator_participant_id = undefined;
  };
  expected_decision_kinds = none;
}

parsed : parse_scenario_ref "fraud/check@1.0.0" ≡ ok ref
unfolding parse_scenario_ref cut_last cut_first
parsed = refl

shown :
    get_launch_schema catalog snapshot snapshot "fraud" "check" "1.0.0" (some "large")
    ≡ returned form
unfolding get_launch_schema summarize_participants get_scenario_version get_template get_pack lookup
    extract_schema_defaults deep_merge merge_loop merge_value get has put spread is_truthy
    bindings_of_items
shown = refl

get_launch_schema-Shows_example :
    (scenario : ScenarioVersionFile) × (s : Settings) × (settings_for env request snapshot snapshot
      ≡ returned (ref, scenario, s))
    × Shows form s
get_launch_schema-Shows_example =
    get_launch_schema-Shows catalog env request snapshot snapshot ref form parsed shown
