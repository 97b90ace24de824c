-- ===== src/Hosting/Adapters/Laws.antt =====
-- What an agent finds in its environment.
use examples_service.Common.{
  ℕ, subst, [], String, ◌≡◌, refl, ap, ◌∙◌, Bool, true, false, Option, none, some,
}
use examples_service.Common.Dict.{
  Dict, lookup, spread, insert, lookup-insert-other, lookup-spread, IsDistinct, first_of,
}
use examples_service.Hosting.Contracts.{AgentManifest, BootstrapPayload, Entrypoint}
use examples_service.Hosting.Supervisor.{PreparedLaunch}
use examples_service.Hosting.Adapters.{build_agent_env}
use examples_service.Hosting.Adapters.Launches.{
  Process, prepare_python, custom_launch, python_env, custom_env,
}

agent_env-IsDistinct : (b : BootstrapPayload) (f : String) → IsDistinct (build_agent_env b f)
unfolding lookup
agent_env-IsDistinct b f = (
  refl,
  (
    refl,
    (refl, (refl, (refl, (refl, (refl, (refl, (refl, (refl, (refl, (refl, (refl, tt))))))))))),
  ),
)

lookup-over :
    (b : BootstrapPayload) (f k v : String) (base : Dict String)
    → lookup k (build_agent_env b f) ≡ some v
    → lookup k (spread base (build_agent_env b f)) ≡ some v
lookup-over b f k v base h =
    lookup-spread k base (build_agent_env b f) (agent_env-IsDistinct b f)
    ∙ ap (λ o. first_of o (lookup k base)) h

insert_entrypoint-own :
    (b : BootstrapPayload) (f value k v : String) (base : Dict String)
    → lookup k (build_agent_env b f) ≡ some v
    → lookup k (insert "EXAMPLE_AGENT_ENTRYPOINT" value (spread base (build_agent_env b f)))
      ≡ some v
unfolding lookup
insert_entrypoint-own b f value k v base h =
    lookup-insert-other "EXAMPLE_AGENT_ENTRYPOINT" k v value (build_agent_env b f) _ refl h
    ∙ lookup-over b f k v base h

pub python_env-own :
    (p : Process) (b : BootstrapPayload) (f : String) (m : AgentManifest) (value k v : String)
    → lookup k (build_agent_env b f) ≡ some v
    → lookup k (python_env p b f m value) ≡ some v
python_env-own p b f m value k v h = insert_entrypoint-own b f value k v _ h

pub custom_env-own :
    (p : Process) (b : BootstrapPayload) (m : AgentManifest) (is_node : Bool) (value k v : String)
    → lookup k (build_agent_env b "custom") ≡ some v
    → lookup k (custom_env p b m is_node value) ≡ some v
unfolding lookup
custom_env-own p b m true value k v h = insert_entrypoint-own b "custom" value k v _ h
custom_env-own p b m false value k v h =
    lookup-insert-other "PYTHONUNBUFFERED" k v "1" (build_agent_env b "custom") _ refl h
    ∙ insert_entrypoint-own b "custom" value k v _ h

env_of : Option PreparedLaunch → Dict String
env_of none = []
env_of (some q) = q.env

none_not_some : {q : PreparedLaunch} → none ≡ some q → ⊥
none_not_some h = cc

pub prepare_python-own :
    (f : String) (timeout : ℕ) (p : Process) (m : AgentManifest) (b : BootstrapPayload)
    (e : Option Entrypoint) (k v : String) (q : PreparedLaunch)
    → prepare_python f timeout p m b e ≡ some q
    → lookup k (build_agent_env b f) ≡ some v
    → lookup k q.env ≡ some v
unfolding env_of
prepare_python-own f timeout p m b none k v q prepared own = absurd (none_not_some prepared)
prepare_python-own f timeout p m b (some e) k v q prepared own =
    subst (λ o. lookup k (env_of o) ≡ some v) prepared (python_env-own p b f m e.value k v own)

pub custom_launch-own :
    (p : Process) (m : AgentManifest) (b : BootstrapPayload) (e : Option Entrypoint) (k v : String)
    (q : PreparedLaunch)
    → custom_launch p m b e ≡ some q
    → lookup k (build_agent_env b "custom") ≡ some v
    → lookup k q.env ≡ some v
unfolding env_of
custom_launch-own p m b none k v q prepared own = absurd (none_not_some prepared)
custom_launch-own p m b (some e) k v q prepared own =
    subst (λ o. lookup k (env_of o) ≡ some v) prepared (custom_env-own p b m _ e.value k v own)
