-- ===== src/Agents/Coverage.antt =====
-- src/catalog/agent-profile.service.ts: the profiles of the agents, with the scenarios that name them.
mod Tests
pub mod Laws
use examples_service.Common.{
  ℕ, String, ◌<>◌, ◌≡◌, refl, ◌↔◌, true, false, Bool, ◌||◌, ◌&&◌, Option, none, some, List, [], ◌∷◌,
  ◌++◌, ◌==◌, string_eq, if◌then◌else◌, contains, map, any, arith, ap, sym, subst, ◌∙◌, Bool-cases,
  inl, inr, Option-cases,
}
use examples_service.Common.Unique.{IsUnique, contains-append, IsUnique-snoc}
use text.Mathlib.TextEquality.{eq_iff}
use examples_service.Common.Dict.{Dict, lookup, insert, lookup-insert}
use examples_service.Js.{get}
use examples_service.Registry.{RegistrySnapshot, PackEntry, ScenarioEntry, ScenarioVersionEntry}
use examples_service.Contracts.{
  ParticipantAgentBinding, ExampleAgentDefinition, ExampleAgentSummary,
}
use examples_service.Agents.{summary_of, list_agents, get_agent}
use examples_service.Compiler.Outcome.{
  Outcome, returned, of_result, ◌>>=◌, bindings_of, bind-returned, same_of_returned,
}

-- One turn of the innermost loop.
abbrev pub covered : String → Option (List String) → List String
covered ref none = ref ∷ []
covered ref (some existing) = if contains existing ref then existing else existing ++ (ref ∷ [])

abbrev pub cover : String → String → Dict (List String) → Dict (List String)
cover ref agent coverage = insert agent (covered ref (lookup agent coverage)) coverage

unfoldable pub cover_all : List (String × String) → Dict (List String) → Dict (List String)
unfolding insert lookup
cover_all [] coverage = coverage
cover_all ((ref, agent) ∷ visits) coverage = cover_all visits (cover ref agent coverage)

abbrev pub visits_of : String → List ParticipantAgentBinding → List (String × String)
visits_of ref [] = []
visits_of ref (p ∷ ps) = (ref, p.agent_ref) ∷ visits_of ref ps

-- The turns of the loops, in their order.
unfoldable pub version_visits :
    String → String → Dict ScenarioVersionEntry → Outcome (List (String × String))
version_visits pack scenario [] = returned []
version_visits pack scenario ((version, entry) ∷ versions) = do
  participants ← bindings_of (get "participants" entry.scenario.launch)
  more ← version_visits pack scenario versions
  returned (visits_of (pack <> "/" <> scenario <> "@" <> version) participants ++ more)

unfoldable pub scenario_visits : String → Dict ScenarioEntry → Outcome (List (String × String))
unfolding version_visits
scenario_visits pack [] = returned []
scenario_visits pack ((scenario, entry) ∷ scenarios) = do
  visits ← version_visits pack scenario entry.versions
  more ← scenario_visits pack scenarios
  returned (visits ++ more)

unfoldable pub pack_visits : Dict PackEntry → Outcome (List (String × String))
unfolding scenario_visits
pack_visits [] = returned []
pack_visits ((slug, entry) ∷ packs) = do
  visits ← scenario_visits entry.pack.metadata.slug entry.scenarios
  more ← pack_visits packs
  returned (visits ++ more)

unfoldable pub build_scenario_coverage_map : RegistrySnapshot → Outcome (Dict (List String))
unfolding cover_all pack_visits
build_scenario_coverage_map snapshot =
    pack_visits snapshot.packs >>= (λ visits. returned (cover_all visits []))

-- `scenarioMap.get(definition.agentRef) ?? []`
abbrev pub or_empty : Option (List String) → List String
or_empty none = []
or_empty (some refs) = refs

abbrev pub scenarios_of : String → Dict (List String) → List String
scenarios_of agent coverage = or_empty (lookup agent coverage)

-- `AgentProfile`: the summary of an agent, and the scenarios that name it.
pub record AgentProfile : Type 0 where
  pub summary : ExampleAgentSummary
  pub scenarios : List String

abbrev profile_of : Dict (List String) → ExampleAgentDefinition → AgentProfile
profile_of coverage d = record {
  summary = summary_of d;
  scenarios = scenarios_of d.agent_ref coverage;
}

pub list_profiles : Dict ExampleAgentDefinition → RegistrySnapshot → Outcome (List AgentProfile)
list_profiles catalog snapshot =
    build_scenario_coverage_map snapshot
    >>= (λ coverage. returned (map (profile_of coverage) (list_agents catalog)))

pub get_profile : Dict ExampleAgentDefinition → RegistrySnapshot → String → Outcome AgentProfile
get_profile catalog snapshot ref = do
  definition ← of_result (get_agent catalog ref)
  coverage ← build_scenario_coverage_map snapshot
  returned (profile_of coverage definition)
