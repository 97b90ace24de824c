-- ===== src/Launch/Laws.antt =====
-- The form of a launch against what is then compiled.
use examples_service.Common.{
  String, ◌≡◌, refl, ap, ◌∙◌, sym, subst, Option, none, some, Bool-cases, inl, inr, if_true,
  if_false,
}
use examples_service.Common.Text.{truthy}
use examples_service.Common.Dict.{Dict}
use examples_service.Js.{Fields, get}
use examples_service.Errors.{ok}
use examples_service.Registry.{RegistrySnapshot, ScenarioVersionFile, ScenarioTemplateFile}
use examples_service.Registry.Index.{get_scenario_version, get_template}
use examples_service.Contracts.{ExampleAgentDefinition}
use examples_service.Compiler.ScenarioRef.{ScenarioRefParts, parse_scenario_ref}
use examples_service.Compiler.Merge.{extract_schema_defaults}
use examples_service.Compiler.Outcome.{
  returned, of_result, of_option, ◌>>=◌, bindings_of, bind-returned, same_of_returned,
}
use examples_service.Compiler.Settings.{
  Settings, settings_of, apply_template, with_template, spread_over, merged_over, override_of,
}
use examples_service.Compiler.Compile.{Environment, settings_for}
use examples_service.Compiler.Compile.Contracts.{CompileLaunchRequest}
use examples_service.Agents.{summarize_participants}
use examples_service.Launch.{
  LaunchSchemaResponse, Local, local_of, override, choose_template, get_launch_schema,
}

-- What the form shows of the settings of a launch.
abbrev pub Shows : LaunchSchemaResponse → Settings → Type 0
Shows r s =
    (r.defaults ≡ s.defaults)
    × (r.runtime ≡ s.runtime)
    × (returned r.participants ≡ bindings_of (get "participants" s.launch))
    × (r.launch_summary.mode_name ≡ get "modeName" s.launch)
    × (r.launch_summary.ttl_ms ≡ get "ttlMs" s.launch)
    × (r.launch_summary.policy_version ≡ get "policyVersion" s.launch)

abbrev Agrees : Local → Settings → Type 0
Agrees l s = (l.resolved_defaults ≡ s.defaults) × (l.runtime ≡ s.runtime) × (l.launch ≡ s.launch)

override-Agrees :
    (l : Local) (s : Settings) (t : ScenarioTemplateFile)
    → Agrees l s
    → Agrees (override l t) (with_template s t)
override-Agrees l s t (d, r, k) = (
  ap (λ x. spread_over x t.defaults) d,
  ap (λ x. spread_over x (override_of (λ o. o.runtime) t.overrides)) r,
  ap (λ x. merged_over x (override_of (λ o. o.launch) t.overrides)) k,
)

chosen :
    (later : RegistrySnapshot) (ref : ScenarioRefParts) (id : String) (l m : Local) (s : Settings)
    → Agrees l s
    → choose_template later ref.pack_slug ref.scenario_slug ref.version (some id) l ≡ returned m
    → (u : Settings) × (apply_template later ref (some id) s ≡ returned u) × Agrees m u
chosen later ref id l m s a h = elim (Bool-cases (truthy id)) [
  | inl e ↦
      let (t, found, made) =
        bind-returned
          (of_result (get_template later ref.pack_slug ref.scenario_slug ref.version id)) _ m
          (sym (if_true _ e) ∙ h) in
      (
        with_template s t,
        if_true _ e ∙ ap (λ o. o >>= (λ x. returned (with_template s x))) found,
        subst (λ x. Agrees x (with_template s t)) (same_of_returned made) (override-Agrees l s t a),
      )
  | inr e ↦ (s, if_false _ e, subst (λ x. Agrees x s) (same_of_returned (sym (if_false _ e) ∙ h)) a)
]

choose-Agrees :
    (later : RegistrySnapshot) (ref : ScenarioRefParts) (template : Option String) (l m : Local)
    (s : Settings)
    → choose_template later ref.pack_slug ref.scenario_slug ref.version template l ≡ returned m
    → Agrees l s
    → (u : Settings) × (apply_template later ref template s ≡ returned u) × Agrees m u
choose-Agrees later ref none l m s h a = (s, refl, subst (λ x. Agrees x s) (same_of_returned h) a)
choose-Agrees later ref (some id) l m s h a = chosen later ref id l m s a h

settled :
    (env : Environment) (request : CompileLaunchRequest) (snapshot later : RegistrySnapshot)
    (ref : ScenarioRefParts) (scenario : ScenarioVersionFile) (defaults : Fields) (s : Settings)
    → parse_scenario_ref request.scenario_ref ≡ ok ref
    → of_result (get_scenario_version snapshot ref.pack_slug ref.scenario_slug ref.version)
      ≡ returned scenario
    → of_option (extract_schema_defaults scenario.schema) ≡ returned defaults
    → apply_template later ref request.template_id (settings_of scenario defaults) ≡ returned s
    → settings_for env request snapshot later ≡ returned (ref, scenario, s)
unfolding settings_for
settled env request snapshot later ref scenario defaults s e f g h = rw e (rw f (rw g (rw h refl)))

-- Where the registry returns a form for a scenario and a template, the compiler has settings for a
-- request of them, and the form shows these: its defaults are those that the inputs of the request
-- are put over, and its runtime, participants, mode, time to live and policy version are the ones
-- that are launched.
pub get_launch_schema-Shows :
    (catalog : Dict ExampleAgentDefinition) (env : Environment) (request : CompileLaunchRequest)
    (snapshot later : RegistrySnapshot) (ref : ScenarioRefParts) (r : LaunchSchemaResponse)
    → parse_scenario_ref request.scenario_ref ≡ ok ref
    → get_launch_schema catalog snapshot later ref.pack_slug ref.scenario_slug ref.version
        request.template_id
      ≡ returned r
    → (scenario : ScenarioVersionFile) × (s : Settings) × (settings_for env request snapshot later
        ≡ returned (ref, scenario, s))
      × Shows r s
unfolding get_launch_schema settings_for
get_launch_schema-Shows catalog env request snapshot later ref r parsed h =
    let (scenario, e1, h1) =
      bind-returned
        (of_result (get_scenario_version snapshot ref.pack_slug ref.scenario_slug ref.version)) _ r
        h in
    let (defaults, e2, h2) =
      bind-returned (of_option (extract_schema_defaults scenario.schema)) _ r h1 in
    let (l, e3, h3) =
      bind-returned
        (choose_template later ref.pack_slug ref.scenario_slug ref.version request.template_id
          (local_of scenario defaults))
        _ r h2 in
    let (s, e4, (d, rt, k)) =
      choose-Agrees later ref request.template_id (local_of scenario defaults) l
        (settings_of scenario defaults) e3 (refl, refl, refl) in
    let (participants, e5, h4) = bind-returned (bindings_of (get "participants" l.launch)) _ r h3 in
    let (agents, e6, made) =
      bind-returned (of_result (summarize_participants catalog participants)) _ r h4 in
    (
      scenario,
      s,
      settled env request snapshot later ref scenario defaults s parsed e1 e2 e4,
      subst (λ x. Shows x s) (same_of_returned made)
          (
            d,
            rt,
            sym e5 ∙ ap (λ x. bindings_of (get "participants" x)) k,
            ap (get "modeName") k,
            ap (get "ttlMs") k,
            ap (get "policyVersion") k,
          ),
    )
