-- ===== src/Agents.antt =====
-- src/example-agents/example-agent-catalog.service.ts: the agents of the service and their lookup. The
-- reading of the files of the manifests is a parameter.
pub mod Definitions
pub mod Coverage
use examples_service.Common.{String, ◌<>◌, Option, none, some, List, [], ◌∷◌, if◌then◌else◌}
use examples_service.Common.Text.{truthy}
use examples_service.Common.Dict.{Dict, lookup, insert, values}
use examples_service.Contracts.{
  ExampleAgentDefinition, ExampleAgentSummary, ParticipantAgentBinding,
}
use examples_service.Errors.{Result, ok, err, ◌>>=◌, app_exception, agent_not_found, not_found}

-- `new Map(definitions.map((definition) => [definition.agentRef, definition]))`
unfoldable pub catalog_from :
    Dict ExampleAgentDefinition → List ExampleAgentDefinition → Dict ExampleAgentDefinition
unfolding insert
catalog_from catalog [] = catalog
catalog_from catalog (d ∷ ds) = catalog_from (insert d.agent_ref d catalog) ds

abbrev pub list_agents : Dict ExampleAgentDefinition → List ExampleAgentDefinition
list_agents catalog = values catalog

abbrev agent_or : String → Option ExampleAgentDefinition → Result ExampleAgentDefinition
agent_or ref none =
    err (app_exception agent_not_found ("example agent not found: " <> ref) not_found)
agent_or ref (some d) = ok d

abbrev pub get_agent : Dict ExampleAgentDefinition → String → Result ExampleAgentDefinition
get_agent catalog ref = agent_or ref (lookup ref catalog)

abbrev pub summary_of : ExampleAgentDefinition → ExampleAgentSummary
summary_of d = record {
  agent_ref = d.agent_ref;
  name = d.name;
  role = d.role;
  framework = d.framework;
  description = d.description;
  transport_identity = d.bootstrap.transport_identity;
  entrypoint = d.bootstrap.entrypoint;
  bootstrap_strategy = d.bootstrap.strategy;
  bootstrap_mode = d.bootstrap.mode;
  tags = d.tags;
}

abbrev pub summarize : Dict ExampleAgentDefinition → String → Result ExampleAgentSummary
summarize catalog ref = get_agent catalog ref >>= (λ d. ok (summary_of d))

abbrev with_role : String → ExampleAgentSummary → ExampleAgentSummary
with_role role s = record s { role = if truthy role then role else s.role }

unfoldable pub summarize_participants :
    Dict ExampleAgentDefinition → List ParticipantAgentBinding → Result (List ExampleAgentSummary)
summarize_participants catalog [] = ok []
summarize_participants catalog (p ∷ ps) = do
  summary ← summarize catalog p.agent_ref
  more ← summarize_participants catalog ps
  ok (with_role p.role summary ∷ more)
