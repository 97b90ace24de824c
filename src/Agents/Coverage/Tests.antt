-- ===== src/Agents/Coverage/Tests.antt =====
-- The scenarios that name an agent, in a small registry.
use examples_service.Common.{String, ◌≡◌, refl, List, [], ◌∷◌, contains, string_eq}
use examples_service.Common.Dict.{Dict, lookup, insert}
use examples_service.Common.Unique.{IsUnique}
use examples_service.Js.{get}
use examples_service.Registry.Sample.{snapshot}
use examples_service.Compiler.Outcome.{returned, bindings_of_items}
use examples_service.Agents.Coverage.{
  build_scenario_coverage_map, cover_all, pack_visits, scenario_visits, version_visits,
  scenarios_of,
}
use examples_service.Agents.Coverage.Laws.{names_in_packs, build_scenario_coverage_map-names}

abbrev coverage : Dict (List String)
coverage = ("fraud-agent", "fraud/check@1.0.0" ∷ []) ∷ []

built : build_scenario_coverage_map snapshot ≡ returned coverage
unfolding build_scenario_coverage_map cover_all pack_visits scenario_visits version_visits lookup
    insert get bindings_of_items
built = refl

build_scenario_coverage_map-names_example :
    (contains (scenarios_of "fraud-agent" coverage) "fraud/check@1.0.0"
      ≡ names_in_packs "fraud/check@1.0.0" "fraud-agent" snapshot.packs)
    × IsUnique (scenarios_of "fraud-agent" coverage)
build_scenario_coverage_map-names_example =
    build_scenario_coverage_map-names snapshot coverage "fraud/check@1.0.0" "fraud-agent" built
