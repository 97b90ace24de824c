-- ===== src/Hosting/AdapterRegistry/Laws.antt =====
-- What the registry launches for a framework.
use examples_service.Common.{
  String, ◌≡◌, refl, ap, ◌∙◌, sym, subst, ◌⊎◌, inl, inr, true, some, arith, string_eq, Option-cases,
}
use text.Mathlib.TextEquality.{eq_iff}
use examples_service.Common.Dict.{lookup}
use examples_service.Hosting.Contracts.{Entrypoint, AgentManifest, BootstrapPayload}
use examples_service.Hosting.Supervisor.{PreparedLaunch}
use examples_service.Hosting.Adapters.{build_agent_env}
use examples_service.Hosting.Adapters.Launches.{Process}
use examples_service.Hosting.Adapters.Launches.{
  prepare_langgraph, prepare_langchain, prepare_crewai, prepare_custom,
}
use examples_service.Hosting.Adapters.Laws.{prepare_python-own, custom_launch-own}
use examples_service.Common.Text.{truthy}
use examples_service.Hosting.Adapters.Checks.{entry_type}
use examples_service.Hosting.AdapterRegistry.Accepting.{accepts, validate_valid}
use examples_service.Hosting.AdapterRegistry.{
  validate, AgentHostAdapter, registered, get_adapter, langgraph, langchain, crewai, custom,
}

pub get_adapter_cases :
    (f : String) (a : AgentHostAdapter)
    → get_adapter registered f ≡ some a
    → ((f ≡ "langgraph") × (a ≡ langgraph))
      ⊎ ((f ≡ "langchain") × (a ≡ langchain))
      ⊎ ((f ≡ "crewai") × (a ≡ crewai))
      ⊎ ((f ≡ "custom") × (a ≡ custom))
unfolding lookup registered
get_adapter_cases f a h =
    ground (arith, eq_iff "langgraph" f, eq_iff "langchain" f, eq_iff "crewai" f, eq_iff "custom" f)

own_for :
    (f g k v : String) (b : BootstrapPayload)
    → f ≡ g
    → lookup k (build_agent_env b f) ≡ some v
    → lookup k (build_agent_env b g) ≡ some v
own_for f g k v b e own = subst (λ h. lookup k (build_agent_env b h) ≡ some v) e own

of_same :
    (a c : AgentHostAdapter) (q : PreparedLaunch) (p : Process) (m : AgentManifest)
    (b : BootstrapPayload)
    → a ≡ c
    → a.prepare_launch p m b ≡ some q
    → c.prepare_launch p m b ≡ some q
of_same a c q p m b e prepared = subst (λ h. h.prepare_launch p m b ≡ some q) e prepared

-- Every adapter gives its agent what `buildAgentEnv` says, whatever the manifest and the process of
-- the service have under the same names.
pub prepare-env :
    (p : Process) (m : AgentManifest) (b : BootstrapPayload) (f k v : String) (a : AgentHostAdapter)
    (q : PreparedLaunch)
    → get_adapter registered f ≡ some a
    → a.prepare_launch p m b ≡ some q
    → lookup k (build_agent_env b f) ≡ some v
    → lookup k q.env ≡ some v
unfolding prepare_langgraph prepare_langchain prepare_crewai prepare_custom
prepare-env p m b f k v a q found prepared own = elim (get_adapter_cases f a found) [
  | inl (e, g) ↦
      prepare_python-own "langgraph" 30000 p m b m.entrypoint k v q
        (of_same a langgraph q p m b g prepared) (own_for f "langgraph" k v b e own)
  | inr (inl (e, g)) ↦
      prepare_python-own "langchain" 30000 p m b m.entrypoint k v q
        (of_same a langchain q p m b g prepared) (own_for f "langchain" k v b e own)
  | inr (inr (inl (e, g))) ↦
      prepare_python-own "crewai" 45000 p m b m.entrypoint k v q
        (of_same a crewai q p m b g prepared) (own_for f "crewai" k v b e own)
  | inr (inr (inr (e, g))) ↦
      custom_launch-own p m b m.entrypoint k v q (of_same a custom q p m b g prepared)
        (own_for f "custom" k v b e own)
]

entrypoint_there :
    (m : AgentManifest) → accepts m ≡ true → (e : Entrypoint) × (m.entrypoint ≡ some e)
unfolding accepts
entrypoint_there m h = elim (Option-cases m.entrypoint) [
  | inl e ↦ absurd (ground (arith, ap (λ o. truthy (entry_type o)) e))
  | inr there ↦ there
]

-- The validator lets no manifest through that makes an adapter throw: each of the four then prepares
-- a launch, in whatever process the service runs and for whatever agent.
pub validate-prepare :
    (m : AgentManifest) (f : String) (a : AgentHostAdapter) (p : Process) (b : BootstrapPayload)
    → (validate registered m).valid ≡ true
    → get_adapter registered f ≡ some a
    → (q : PreparedLaunch) × (a.prepare_launch p m b ≡ some q)
unfolding prepare_langgraph prepare_langchain prepare_crewai prepare_custom
validate-prepare m f a p b valid found =
    let (e, there) = entrypoint_there m (sym (validate_valid m) ∙ valid) in
    elim (get_adapter_cases f a found) [
      | inl (_, g) ↦ rw g (rw there (_, refl))
      | inr (inl (_, g)) ↦ rw g (rw there (_, refl))
      | inr (inr (inl (_, g))) ↦ rw g (rw there (_, refl))
      | inr (inr (inr (_, g))) ↦ rw g (rw there (_, refl))
    ]
