-- ===== src/Compiler/Compile/Gathered.antt =====
-- What `compile` of src/compiler/compiler.service.ts has gathered before it builds its result.
use examples_service.Common.{
  String, ◌<>◌, Option, none, some, List, [], ◌∷◌, ◌++◌, string_eq, if◌then◌else◌,
}
use examples_service.Js.{Value, undefined, str, obj, Fields, end, get, is_truthy, to_text}
use examples_service.Registry.{ScenarioVersionFile, Outputs}
use examples_service.Contracts.{
  ParticipantAgentBinding, InitiatorPayload, KickoffPayload, StartPayload,
}
use examples_service.Compiler.Outcome.{
  Outcome, returned, of_result, coalesce, property, first, is_text, unique,
}
use examples_service.Compiler.Settings.{Settings}
use examples_service.Compiler.ScenarioRef.{ScenarioRefParts}
use examples_service.Compiler.Substitute.{substitute}

unfoldable pub infer_message_type : Value → Value
unfolding is_truthy get
infer_message_type kickoff =
    if is_truthy (property "messageType" kickoff)
    then property "messageType" kickoff
    else if is_text (property "kind" kickoff) "proposal"
    then str "Proposal"
    else str "Signal"

-- A value that is `undefined` where the template of it is falsy.
abbrev pub substitute_if : Fields → Value → Value → Outcome Value
substitute_if variables otherwise template =
    let value = of_result (substitute variables template) in
    if is_truthy template then value else returned otherwise

abbrev pub tags_or_none : Option (List String) → List String
tags_or_none none = []
tags_or_none (some tags) = tags

abbrev pub first_id : List ParticipantAgentBinding → Value
first_id [] = undefined
first_id (b ∷ bs) = str b.participant_id

abbrev pub ids_of : List ParticipantAgentBinding → List String
ids_of [] = []
ids_of (b ∷ bs) = b.participant_id ∷ ids_of bs

abbrev pub kickoff_of : Value → Option KickoffPayload
kickoff_of kickoff =
    let envelope = property "payloadEnvelope" kickoff in
    if is_truthy kickoff
    then some (record {
      message_type = infer_message_type kickoff;
      payload_type = property "typeName" (property "proto" envelope);
      payload = coalesce (property "payload" kickoff) (
          coalesce (property "json" envelope)
            (coalesce (property "value" (property "proto" envelope)) (obj end)));
    })
    else none

abbrev pub text_or : String → Option String → String
text_or otherwise none = otherwise
text_or otherwise (some s) = s

abbrev pub expected_kinds : Option Outputs → Option (List String)
expected_kinds none = none
expected_kinds (some outputs) = outputs.expected_decision_kinds

-- What `compile` has computed before it builds the result.
pub record Parts : Type 0 where
  pub ref : ScenarioRefParts
  pub scenario : ScenarioVersionFile
  pub settings : Settings
  pub context : Value
  pub metadata : Fields
  pub kickoff : Value
  pub bindings : List ParticipantAgentBinding
  pub execution_tags : List String

abbrev pub initiator_id : Parts → Value
initiator_id p =
    coalesce (get "initiatorParticipantId" p.settings.launch)
      (coalesce (property "from" (first p.kickoff)) (first_id p.bindings))

abbrev pub start_of : Parts → StartPayload
start_of p =
    let launch = p.settings.launch in
    record {
      intent = to_text (
          coalesce (get "intent" p.metadata) (str (p.ref.pack_slug <> "/" <> p.ref.scenario_slug)));
      participants = ids_of p.bindings;
      ttl_ms = get "ttlMs" launch;
      mode_version = get "modeVersion" launch;
      configuration_version = get "configurationVersion" launch;
      policy_version = get "policyVersion" launch;
      context = p.context;
      context_id = get "contextId" launch;
      extensions = get "extensions" launch;
      roots = undefined;
    }

abbrev pub initiator_of : Parts → Option InitiatorPayload
initiator_of p =
    if is_truthy (initiator_id p)
    then some (record {
      participant_id = initiator_id p;
      session_start = start_of p;
      kickoff = kickoff_of (first p.kickoff);
    })
    else none

abbrev pub tags_of : Parts → List String
tags_of p = unique [] (
    "example" ∷ p.ref.pack_slug ∷ p.ref.scenario_slug ∷ p.execution_tags
    ++ tags_or_none p.scenario.metadata.tags)
