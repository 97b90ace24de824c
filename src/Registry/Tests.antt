-- ===== src/Registry/Tests.antt =====
-- The theorems of the registry at concrete inputs.
use examples_service.Common.{ℕ, ◌-◌, ◌<◌, ◌≡◌, ◌↔◌, refl, none, some, List, [], ◌∷◌, nat_eq}
use examples_service.Common.Dict.{lookup}
use examples_service.Js.{end}
use examples_service.Errors.{ok}
use examples_service.Registry.{RegistrySnapshot}
use examples_service.Registry.{ScenarioTemplateFile, ScenarioVersionEntry, ScenarioVersionFile}
use examples_service.Registry.Index.{
  get_pack, get_scenario_version, get_template, entry_at, get_template_iff,
}
use examples_service.Registry.Cache.{
  Event, get_snapshot, loaded, invalidate, cached, call, step, after,
}
use examples_service.Registry.Cache.Laws.{
  IsFilledBy, IsUndisturbed, promise_list, served_fresh, one_load,
}

abbrev scenario : ScenarioVersionFile
scenario = record {
  api_version = "scenarios.macp.dev/v1";
  kind = "ScenarioVersion";
  metadata = record {
    pack = "fraud";
    scenario = "high-value";
    version = "1.0.0";
    name = "High value";
    summary = none;
    tags = none;
    deprecated = none;
  };
  runtime = none;
  schema = end;
  launch = end;
  execution = none;
  outputs = none;
}

abbrev default_template : ScenarioTemplateFile
default_template = record {
  api_version = "scenarios.macp.dev/v1";
  kind = "ScenarioTemplate";
  scenario_version = "1.0.0";
  slug = "default";
  name = "Default";
  defaults = none;
  overrides = none;
}

abbrev entry : ScenarioVersionEntry
entry = record { scenario = scenario; templates = ("default", default_template) ∷ [] }

abbrev snapshot : RegistrySnapshot
snapshot = record {
  packs =
      (
        "fraud",
        record {
          pack = record {
            api_version = "scenarios.macp.dev/v1";
            kind = "ScenarioPack";
            metadata = record { slug = "fraud"; name = "Fraud"; description = none; tags = none };
          };
          scenarios = ("high-value", record { versions = ("1.0.0", entry) ∷ [] }) ∷ [];
        },
      )
      ∷ [];
  loaded_at = 7;
}

default_found : get_template snapshot "fraud" "high-value" "1.0.0" "default" ≡ ok default_template
unfolding get_template get_pack lookup
default_found = refl

get_template_iff_example :
    ((get_scenario_version snapshot "fraud" "high-value" "1.0.0" ≡ ok scenario) ↔ (
      (e : ScenarioVersionEntry) × (entry_at snapshot "fraud" "high-value" "1.0.0" ≡ some e)
      × (e.scenario ≡ scenario)))
    × ((get_template snapshot "fraud" "high-value" "1.0.0" "default" ≡ ok default_template) ↔ (
        (e : ScenarioVersionEntry) × (entry_at snapshot "fraud" "high-value" "1.0.0" ≡ some e)
        × (lookup "default" e.templates ≡ some default_template)))
get_template_iff_example =
    get_template_iff snapshot "fraud" "high-value" "1.0.0" "default" scenario default_template

-- Two callers at 10 and 11, and the load's end at 15.
abbrev history : List (Event RegistrySnapshot)
history = loaded 0 snapshot 15 ∷ get_snapshot 11 ∷ get_snapshot 10 ∷ []

served_at_20 : (call 30 20 (after 30 history)).1 ≡ cached snapshot
unfolding call after step
served_at_20 = refl

served_fresh_example : (at : ℕ) × IsFilledBy history snapshot at × (0 < 30) × (20 - at < 30)
served_fresh_example = served_fresh 30 history 20 snapshot served_at_20

undisturbed : IsUndisturbed 30 history
unfolding IsUndisturbed after step call
undisturbed = (refl, refl, (refl, refl, (refl, refl, tt)))

one_load_example : (after 30 history).in_flight ≡ promise_list (after 30 history).loading
one_load_example = one_load 30 history undisturbed

-- A load that was started before the cache was invalidated fills it all the same.
invalidated : List (Event RegistrySnapshot)
invalidated = loaded 0 snapshot 15 ∷ invalidate ∷ get_snapshot 10 ∷ []

stale_load_kept : (after 30 invalidated).cached_snapshot ≡ some snapshot
unfolding after step call invalidated
stale_load_kept = refl
