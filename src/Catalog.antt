-- ===== src/Catalog.antt =====
-- src/catalog/catalog.service.ts: the summaries of packs and scenarios. `sort` of JavaScript compares
-- texts by their code units.
pub mod Sorting
pub mod Laws
mod Tests
use examples_service.Common.{String, Option, none, some, List, [], ◌∷◌, ◌++◌, map}
use examples_service.Common.Dict.{Dict, lookup, keys, values}
use examples_service.Js.{Value, undefined, null, str, obj, arr, Items, nil, cons, Fields, get}
use examples_service.Registry.{
  RegistrySnapshot, PackEntry, PackSummary, ScenarioEntry, ScenarioVersionEntry,
}
use examples_service.Registry.Index.{get_pack}
use examples_service.Compiler.Outcome.{
  Outcome, ill_typed, returned, ◌>>=◌, of_result, coalesce, property,
}
use examples_service.Catalog.Sorting.{sort, last_of}

pub record ScenarioSummary : Type 0 where
  pub scenario : String
  pub name : String
  pub summary : Option String
  pub versions : List String
  pub templates : List String
  pub tags : Option (List String)
  pub runtime_kind : Value
  pub agent_refs : List Value
  pub policy_version : Value
  pub policy_hints : Value

abbrev pack_summary : PackEntry → PackSummary
pack_summary entry = entry.pack.metadata

unfoldable pub list_packs : RegistrySnapshot → List PackSummary
unfolding values
list_packs snapshot = map pack_summary (values snapshot.packs)

-- `participant.agentRef`, which a participant that is no object at all does not have.
abbrev agent_ref_of : Value → Outcome Value
agent_ref_of undefined = ill_typed
agent_ref_of null = ill_typed
agent_ref_of v = returned (property "agentRef" v)

unfoldable pub refs_of_items : Items → Outcome (List Value)
unfolding get
refs_of_items nil = returned []
refs_of_items (cons v vs) = do r ← agent_ref_of v; rs ← refs_of_items vs; returned (r ∷ rs)

-- `(participants ?? []).map(…)`
abbrev pub refs_of : Value → Outcome (List Value)
refs_of undefined = returned []
refs_of null = returned []
refs_of (arr vs) = refs_of_items vs
refs_of v = ill_typed

abbrev fields_value : Option Fields → Value
fields_value none = undefined
fields_value (some fs) = obj fs

-- `versions.get(versions[versions.length - 1])`
abbrev pub latest_in : Dict ScenarioVersionEntry → Option String → Option ScenarioVersionEntry
latest_in versions none = none
latest_in versions (some v) = lookup v versions

abbrev pub runtime_kind_of : ScenarioVersionEntry → Value
runtime_kind_of e = coalesce (property "kind" (fields_value e.scenario.runtime)) (str "rust")

abbrev pub summary_of_latest :
    String → List String → ScenarioVersionEntry → List Value → ScenarioSummary
summary_of_latest slug versions latest refs = record {
  scenario = slug;
  name = latest.scenario.metadata.name;
  summary = latest.scenario.metadata.summary;
  versions = versions;
  templates = sort (keys latest.templates);
  tags = latest.scenario.metadata.tags;
  runtime_kind = runtime_kind_of latest;
  agent_refs = refs;
  policy_version = get "policyVersion" latest.scenario.launch;
  policy_hints = get "policyHints" latest.scenario.launch;
}

abbrev pub summary_with :
    String → List String → Option ScenarioVersionEntry → Outcome ScenarioSummary
summary_with slug versions none = returned (record {
  scenario = slug;
  name = slug;
  summary = none;
  versions = versions;
  templates = [];
  tags = none;
  runtime_kind = str "rust";
  agent_refs = [];
  policy_version = undefined;
  policy_hints = undefined;
})
summary_with slug versions (some latest) = do
  refs ← refs_of (get "participants" latest.scenario.launch)
  returned (summary_of_latest slug versions latest refs)

abbrev pub scenario_summary : String → ScenarioEntry → Outcome ScenarioSummary
scenario_summary slug entry =
    let versions = sort (keys entry.versions) in
    summary_with slug versions (latest_in entry.versions (last_of versions))

unfoldable pub summaries_of : Dict ScenarioEntry → Outcome (List ScenarioSummary)
unfolding sort lookup keys get refs_of_items
summaries_of [] = returned []
summaries_of ((slug, entry) ∷ scenarios) = do
  s ← scenario_summary slug entry
  more ← summaries_of scenarios
  returned (s ∷ more)

unfoldable pub list_scenarios : RegistrySnapshot → String → Outcome (List ScenarioSummary)
unfolding summaries_of
list_scenarios snapshot pack_slug =
    of_result (get_pack snapshot pack_slug) >>= (λ pack. summaries_of pack.scenarios)

abbrev in_pack : String → ScenarioSummary → String × ScenarioSummary
in_pack slug s = (slug, s)

unfoldable pub all_summaries : Dict PackEntry → Outcome (List (String × ScenarioSummary))
unfolding summaries_of
all_summaries [] = returned []
all_summaries ((key, entry) ∷ packs) = do
  summaries ← summaries_of entry.scenarios
  more ← all_summaries packs
  returned (map (in_pack entry.pack.metadata.slug) summaries ++ more)

unfoldable pub list_all_scenarios : RegistrySnapshot → Outcome (List (String × ScenarioSummary))
unfolding all_summaries
list_all_scenarios snapshot = all_summaries snapshot.packs
