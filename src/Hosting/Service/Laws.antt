-- ===== src/Hosting/Service/Laws.antt =====
-- The agents that are hosted are those that are bound, in the order of the bindings.
use examples_service.Common.{String, ◌≡◌, refl, ap, ◌∙◌, sym, List, [], ◌∷◌, arith}
use examples_service.Common.Dict.{Dict}
use examples_service.Errors.{Result, ok, err}
use examples_service.Contracts.{ExampleAgentDefinition, ParticipantAgentBinding, HostedExampleAgent}
use examples_service.Agents.{get_agent}
use examples_service.Compiler.Compile.{ids_of}
use examples_service.Hosting.Service.{
  materialize_hosted_agents, hosted_cons, hosted_then, resolve_one,
}

abbrev pub hosted_ids : List HostedExampleAgent → List String
hosted_ids [] = []
hosted_ids (a ∷ agents) = a.participant_id ∷ hosted_ids agents

module _ {S : Type 0} where
  -- A provider hosts an agent for the participant that it is asked for.
  abbrev pub IsFaithful :
      (ExampleAgentDefinition → ParticipantAgentBinding → S → S × Result HostedExampleAgent)
      → Type 0
  IsFaithful resolver =
      (d : ExampleAgentDefinition) (b : ParticipantAgentBinding) (s : S) (a : HostedExampleAgent)
      → (resolver d b s).1 ≡ ok a
      → a.participant_id ≡ b.participant_id

  resolve_one-faithful :
      (resolver : ExampleAgentDefinition
        → ParticipantAgentBinding
        → S
        → S × Result HostedExampleAgent)
      (b : ParticipantAgentBinding) (d : Result ExampleAgentDefinition) (s : S)
      (a : HostedExampleAgent)
      → IsFaithful resolver
      → (resolve_one resolver b d s).1 ≡ ok a
      → a.participant_id ≡ b.participant_id
  resolve_one-faithful resolver b (err e) s a f h = absurd (ground arith)
  resolve_one-faithful resolver b (ok d) s a f h = f d b s a h

  hosted_cons-ok :
      (agent : HostedExampleAgent) (x : S × Result (List HostedExampleAgent))
      (agents : List HostedExampleAgent)
      → (hosted_cons agent x).1 ≡ ok agents
      → (more : List HostedExampleAgent) × (x.1 ≡ ok more) × (agents ≡ agent ∷ more)
  hosted_cons-ok agent (s, err e) agents h = absurd (ground arith)
  hosted_cons-ok agent (s, ok more) agents h = (more, refl, cc)

  hosted_then-ok :
      (x : S × Result HostedExampleAgent) (next : S → S × Result (List HostedExampleAgent))
      (agents : List HostedExampleAgent)
      → (hosted_then x next).1 ≡ ok agents
      → (a : HostedExampleAgent) × (more : List HostedExampleAgent) × (x.1 ≡ ok a)
        × ((next x.0).1 ≡ ok more)
        × (agents ≡ a ∷ more)
  hosted_then-ok (s, err e) next agents h = absurd (ground arith)
  hosted_then-ok (s, ok a) next agents h =
      let (more, e, g) = hosted_cons-ok a (next s) agents h in (a, more, refl, e, g)

same_of_ok : {xs ys : List HostedExampleAgent} → ok xs ≡ ok ys → xs ≡ ys
same_of_ok h = cc

module _ {S : Type 0} (catalog : Dict ExampleAgentDefinition) where
  pub materialize-ids :
      (resolver : ExampleAgentDefinition
        → ParticipantAgentBinding
        → S
        → S × Result HostedExampleAgent)
      (bs : List ParticipantAgentBinding) (s : S) (agents : List HostedExampleAgent)
      → IsFaithful resolver
      → (materialize_hosted_agents catalog resolver bs s).1 ≡ ok agents
      → hosted_ids agents ≡ ids_of bs
  unfolding materialize_hosted_agents
  materialize-ids resolver [] s agents f h = ap hosted_ids (sym (same_of_ok h))
  materialize-ids resolver (b ∷ bs) s agents f h =
      let (a, more, e, g, k) =
        hosted_then-ok (resolve_one resolver b (get_agent catalog b.agent_ref) s)
          (λ t. materialize_hosted_agents catalog resolver bs t) agents h in
      ap hosted_ids k
      ∙ ground (
        arith,
        resolve_one-faithful resolver b (get_agent catalog b.agent_ref) s a f e,
        materialize-ids resolver bs _ more f g,
      )
