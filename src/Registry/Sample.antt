-- ===== src/Registry/Sample.antt =====
-- A small registry, for the tests of what reads one.
use examples_service.Common.{none, some, [], ◌∷◌}
use examples_service.Js.{str, num, arr, obj, cons, nil, Fields, end, field}
use examples_service.Registry.{RegistrySnapshot, ScenarioVersionFile, ScenarioTemplateFile}

abbrev pub schema : Fields
schema = field "properties" (obj (field "amount" (obj (field "default" (num "5") end)) end)) end

abbrev pub launch : Fields
launch = field "modeName" (str "decision") (
    field "ttlMs" (num "1000") (
      field "participants"
        (arr (
          cons
            (obj (
              field "id" (str "fraud")
                (field "role" (str "fraud") (field "agentRef" (str "fraud-agent") end))))
            nil))
        end))

abbrev pub scenario : ScenarioVersionFile
scenario = record {
  api_version = "scenarios.macp.dev/v1";
  kind = "ScenarioVersion";
  metadata = record {
    pack = "fraud";
    scenario = "check";
    version = "1.0.0";
    name = "Check";
    summary = none;
    tags = some ("fraud" ∷ "demo" ∷ []);
    deprecated = none;
  };
  runtime = none;
  schema = schema;
  launch = launch;
  execution = none;
  outputs = none;
}

abbrev pub template : ScenarioTemplateFile
template = record {
  api_version = "scenarios.macp.dev/v1";
  kind = "ScenarioTemplate";
  scenario_version = "1.0.0";
  slug = "large";
  name = "Large";
  defaults = some (field "amount" (num "500") end);
  overrides =
      some (record {
        runtime = none;
        launch = some (field "ttlMs" (num "2000") end);
        execution = none;
      });
}

abbrev pub snapshot : RegistrySnapshot
snapshot = record {
  packs =
      (
        "fraud",
        record {
          pack = record {
            api_version = "scenarios.macp.dev/v1";
            kind = "ScenarioPack";
            metadata = record { slug = "fraud"; name = "Fraud"; description = none; tags = none };
          };
          scenarios =
              (
                "check",
                record {
                  versions =
                      (
                        "1.0.0",
                        record { scenario = scenario; templates = ("large", template) ∷ [] },
                      )
                      ∷ [];
                },
              )
              ∷ [];
        },
      )
      ∷ [];
  loaded_at = 0;
}
