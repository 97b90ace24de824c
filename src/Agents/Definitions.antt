-- ===== src/Agents/Definitions.antt =====
-- The agents that come with the service.
use examples_service.Common.{String, ◌<>◌, none, some, List, [], ◌∷◌}
use examples_service.Contracts.{ExampleAgentDefinition}
use examples_service.Hosting.Contracts.{AgentManifest}
use examples_service.Errors.{
  Result, ok, err, ◌>>=◌, app_exception, invalid_config, internal_server_error,
}

-- What is found at a path: no file, one that cannot be read or parsed, or a manifest.
pub data ManifestFile : Type 0 where
  missing : ManifestFile
  unreadable : String → ManifestFile
  parsed : AgentManifest → ManifestFile

abbrev manifest_from : String → String → ManifestFile → Result AgentManifest
manifest_from relative absolute missing = err (
    app_exception invalid_config
      ("example agent manifest missing: " <> relative <> " (resolved: " <> absolute <> ")")
      internal_server_error)
manifest_from relative absolute (unreadable message) = err (
    app_exception invalid_config
      ("example agent manifest unreadable: " <> relative <> " (" <> message <> ")")
      internal_server_error)
manifest_from relative absolute (parsed manifest) = ok manifest

abbrev fraud_scenario : String
fraud_scenario = "fraud/high-value-new-device@1.0.0"

abbrev fraud_agent : AgentManifest → ExampleAgentDefinition
fraud_agent manifest = record {
  agent_ref = "fraud-agent";
  name = "Fraud Agent";
  role = "fraud";
  description =
      some "Evaluates device, chargeback, and identity-risk signals using a LangGraph graph.";
  framework = "langgraph";
  supported_scenario_refs = some (fraud_scenario ∷ []);
  bootstrap = record {
    strategy = "external";
    entrypoint = "agents/langgraph_worker/main.py";
    transport_identity = "agent://fraud-agent";
    mode = "attached";
    launcher = some "python";
    args = none;
    env = none;
    notes = some (
        "Backed by a real LangGraph graph that evaluates device trust and chargeback signals."
        ∷ "Falls back gracefully when langgraph is not installed." ∷ []);
  };
  manifest = some manifest;
  metadata = none;
  tags = some ("fraud" ∷ "langgraph" ∷ "risk" ∷ []);
}

abbrev growth_agent : AgentManifest → ExampleAgentDefinition
growth_agent manifest = record {
  agent_ref = "growth-agent";
  name = "Growth Agent";
  role = "growth";
  description =
      some
        "Assesses customer value, revenue impact, and experience trade-offs using a LangChain chain.";
  framework = "langchain";
  supported_scenario_refs = some (fraud_scenario ∷ []);
  bootstrap = record {
    strategy = "external";
    entrypoint = "agents/langchain_worker/main.py";
    transport_identity = "agent://growth-agent";
    mode = "attached";
    launcher = some "python";
    args = none;
    env = none;
    notes = some (
        "Runs a LangChain chain that analyzes growth impact factors."
        ∷ "Falls back gracefully when langchain is not installed." ∷ []);
  };
  manifest = some manifest;
  metadata = none;
  tags = some ("growth" ∷ "langchain" ∷ "revenue" ∷ []);
}

abbrev compliance_agent : AgentManifest → ExampleAgentDefinition
compliance_agent manifest = record {
  agent_ref = "compliance-agent";
  name = "Compliance Agent";
  role = "compliance";
  description = some "Applies onboarding, policy, and KYC/AML checks using a CrewAI crew.";
  framework = "crewai";
  supported_scenario_refs = some (fraud_scenario ∷ []);
  bootstrap = record {
    strategy = "external";
    entrypoint = "agents/crewai_worker/main.py";
    transport_identity = "agent://compliance-agent";
    mode = "attached";
    launcher = some "python";
    args = none;
    env = none;
    notes = some (
        "Demonstrates a CrewAI-style specialist that can raise objections or send evaluations."
        ∷ "Falls back gracefully when crewai is not installed." ∷ []);
  };
  manifest = some manifest;
  metadata = none;
  tags = some ("compliance" ∷ "crewai" ∷ "policy" ∷ []);
}

abbrev risk_agent : AgentManifest → ExampleAgentDefinition
risk_agent manifest = record {
  agent_ref = "risk-agent";
  name = "Risk Agent";
  role = "risk";
  description =
      some
        "Coordinates the final recommendation and turns specialist input into a terminal commitment.";
  framework = "custom";
  supported_scenario_refs = some (fraud_scenario ∷ []);
  bootstrap = record {
    strategy = "external";
    entrypoint = "src/example-agents/runtime/risk-decider.worker.ts";
    transport_identity = "agent://risk-agent";
    mode = "attached";
    launcher = some "node";
    args = none;
    env = none;
    notes = some (
        "Acts as the decision owner for the showcase session and actively joins the runtime via the control plane."
        ∷ "Uses the custom framework adapter for Node.js-based coordinators." ∷ []);
  };
  manifest = some manifest;
  metadata = none;
  tags = some ("risk" ∷ "coordinator" ∷ "decision" ∷ []);
}

-- `absolute` is `path.resolve(process.cwd(), …)`, and `file_at` says what is found there.
module _ (absolute : String → String) (file_at : String → ManifestFile) where
  abbrev pub load_manifest : String → Result AgentManifest
  load_manifest relative = manifest_from relative (absolute relative) (file_at (absolute relative))

  unfoldable pub example_agent_definitions : Result (List ExampleAgentDefinition)
  example_agent_definitions = do
    fraud ← load_manifest "agents/manifests/fraud-agent.json"
    growth ← load_manifest "agents/manifests/growth-agent.json"
    compliance ← load_manifest "agents/manifests/compliance-agent.json"
    risk ← load_manifest "agents/manifests/risk-agent.json"
    ok (
        fraud_agent fraud
        ∷ growth_agent growth
        ∷ compliance_agent compliance
        ∷ risk_agent risk
        ∷ [])
