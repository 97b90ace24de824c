-- ===== src/Agents/Coverage/Laws.antt =====
-- The coverage map against the registry that it is built from.
use examples_service.Common.{
  String, ◌<>◌, ◌≡◌, refl, false, Bool, ◌||◌, ◌&&◌, Option, none, some, List, [], ◌∷◌, ◌++◌, ◌==◌,
  string_eq, if◌then◌else◌, contains, any, arith, ap, sym, subst, ◌∙◌, Bool-cases, inl, inr,
}
use examples_service.Common.Unique.{IsUnique, contains-append, IsUnique-snoc}
use text.Mathlib.TextEquality.{eq_iff}
use examples_service.Common.Dict.{Dict, lookup, lookup-insert}
use examples_service.Js.{get}
use examples_service.Registry.{RegistrySnapshot, PackEntry, ScenarioEntry, ScenarioVersionEntry}
use examples_service.Contracts.{ParticipantAgentBinding}
use examples_service.Compiler.Outcome.{
  Outcome, returned, bindings_of, bind-returned, same_of_returned,
}
use examples_service.Agents.Coverage.{
  covered, cover, cover_all, visits_of, version_visits, scenario_visits, pack_visits,
  build_scenario_coverage_map, or_empty, scenarios_of,
}

-- Whether a turn of the loops is at the scenario and the agent.
abbrev pub visited : String → String → List (String × String) → Bool
visited ref agent [] = false
visited ref agent ((r, a) ∷ visits) = (r == ref && a == agent) || visited ref agent visits

covered-contains :
    (ref other : String) (o : Option (List String))
    → contains (covered ref o) other ≡ (contains (or_empty o) other || ref == other)
covered-contains ref other none = ground arith
covered-contains ref other (some existing) = elim (Bool-cases (contains existing ref)) [
  | inl e ↦ rw e (elim (Bool-cases (ref == other)) [
    | inl g ↦ rw g (ground (arith, ap (contains existing) ((eq_iff ref other).0 g)))
    | inr g ↦ rw g (ground arith)
  ])
  | inr e ↦ rw e (contains-append existing (ref ∷ []) other ∙ ground arith)
]

covered-IsUnique :
    (ref : String) (o : Option (List String)) → IsUnique (or_empty o) → IsUnique (covered ref o)
covered-IsUnique ref none u = (refl, tt)
covered-IsUnique ref (some existing) u = elim (Bool-cases (contains existing ref)) [
  | inl e ↦ rw e u
  | inr e ↦ rw e (IsUnique-snoc existing ref u e)
]

scenarios_of-cover :
    (ref a agent : String) (c : Dict (List String))
    → scenarios_of agent (cover ref a c)
      ≡ (if a == agent then covered ref (lookup agent c) else scenarios_of agent c)
scenarios_of-cover ref a agent c =
    ap or_empty (lookup-insert a agent (covered ref (lookup a c)) c)
    ∙ elim (Bool-cases (a == agent)) [
      | inl e ↦ rw e (ap (λ b. covered ref (lookup b c)) ((eq_iff a agent).0 e))
      | inr e ↦ rw e refl
    ]

cover-contains :
    (ref a agent other : String) (c : Dict (List String))
    → contains (scenarios_of agent (cover ref a c)) other
      ≡ (contains (scenarios_of agent c) other || (ref == other && a == agent))
cover-contains ref a agent other c =
    ap (λ l. contains l other) (scenarios_of-cover ref a agent c) ∙ elim (Bool-cases (a == agent)) [
      | inl e ↦ rw e (covered-contains ref other (lookup agent c) ∙ ground arith)
      | inr e ↦ rw e (ground arith)
    ]

cover-IsUnique :
    (ref a agent : String) (c : Dict (List String))
    → IsUnique (scenarios_of agent c)
    → IsUnique (scenarios_of agent (cover ref a c))
cover-IsUnique ref a agent c u =
    subst IsUnique (sym (scenarios_of-cover ref a agent c)) (elim (Bool-cases (a == agent)) [
      | inl e ↦ rw e (covered-IsUnique ref (lookup agent c) u)
      | inr e ↦ rw e u
    ])

cover_all-contains :
    (visits : List (String × String)) (agent other : String) (c : Dict (List String))
    → contains (scenarios_of agent (cover_all visits c)) other
      ≡ (contains (scenarios_of agent c) other || visited other agent visits)
unfolding cover_all
cover_all-contains [] agent other c = ground arith
cover_all-contains ((ref, a) ∷ visits) agent other c =
    cover_all-contains visits agent other (cover ref a c)
    ∙ ground (arith, cover-contains ref a agent other c)

cover_all-IsUnique :
    (visits : List (String × String)) (agent : String) (c : Dict (List String))
    → IsUnique (scenarios_of agent c)
    → IsUnique (scenarios_of agent (cover_all visits c))
unfolding cover_all
cover_all-IsUnique [] agent c u = u
cover_all-IsUnique ((ref, a) ∷ visits) agent c u =
    cover_all-IsUnique visits agent (cover ref a c) (cover-IsUnique ref a agent c u)

visited-append :
    (ref agent : String) (xs ys : List (String × String))
    → visited ref agent (xs ++ ys) ≡ (visited ref agent xs || visited ref agent ys)
visited-append ref agent [] ys = refl
visited-append ref agent ((r, a) ∷ xs) ys = ground (arith, visited-append ref agent xs ys)

visited-visits_of :
    (ref agent r : String) (ps : List ParticipantAgentBinding)
    → visited ref agent (visits_of r ps) ≡ (r == ref && any (λ p. p.agent_ref == agent) ps)
visited-visits_of ref agent r [] = ground arith
visited-visits_of ref agent r (p ∷ ps) = ground (arith, visited-visits_of ref agent r ps)

-- Whether a scenario of the registry, under its reference, has the agent among its participants.
abbrev names : String → Outcome (List ParticipantAgentBinding) → Bool
names agent (returned ps) = any (λ p. p.agent_ref == agent) ps
names agent o = false

abbrev pub names_in_versions : String → String → String → String → Dict ScenarioVersionEntry → Bool
names_in_versions ref agent pack scenario [] = false
names_in_versions ref agent pack scenario ((version, entry) ∷ versions) =
    ((pack <> "/" <> scenario <> "@" <> version) == ref
      && names agent (bindings_of (get "participants" entry.scenario.launch)))
    || names_in_versions ref agent pack scenario versions

abbrev pub names_in_scenarios : String → String → String → Dict ScenarioEntry → Bool
names_in_scenarios ref agent pack [] = false
names_in_scenarios ref agent pack ((scenario, entry) ∷ scenarios) =
    names_in_versions ref agent pack scenario entry.versions
    || names_in_scenarios ref agent pack scenarios

abbrev pub names_in_packs : String → String → Dict PackEntry → Bool
names_in_packs ref agent [] = false
names_in_packs ref agent ((slug, entry) ∷ packs) =
    names_in_scenarios ref agent entry.pack.metadata.slug entry.scenarios
    || names_in_packs ref agent packs

-- Two visited parts, one behind the other.
both_parts :
    (ref agent : String) (xs ys zs : List (String × String)) (a b : Bool)
    → (xs ++ ys) ≡ zs
    → visited ref agent xs ≡ a
    → visited ref agent ys ≡ b
    → visited ref agent zs ≡ (a || b)
both_parts ref agent xs ys zs a b h p q =
    ap (visited ref agent) (sym h) ∙ visited-append ref agent xs ys ∙ rw p (rw q refl)

version_visits-names :
    (ref agent pack scenario : String) (versions : Dict ScenarioVersionEntry)
    (visits : List (String × String))
    → version_visits pack scenario versions ≡ returned visits
    → visited ref agent visits ≡ names_in_versions ref agent pack scenario versions
unfolding version_visits
version_visits-names ref agent pack scenario [] visits h =
    ap (visited ref agent) (sym (same_of_returned h))
version_visits-names ref agent pack scenario ((version, entry) ∷ versions) visits h =
    let (ps, e, h2) =
      bind-returned (bindings_of (get "participants" entry.scenario.launch)) _ visits h in
    let (more, g, h3) = bind-returned (version_visits pack scenario versions) _ visits h2 in
    both_parts ref agent _ more visits _ _ (same_of_returned h3)
      (visited-visits_of ref agent (pack <> "/" <> scenario <> "@" <> version) ps
        ∙ ap (λ o. (pack <> "/" <> scenario <> "@" <> version) == ref && names agent o) (sym e))
      (version_visits-names ref agent pack scenario versions more g)

scenario_visits-names :
    (ref agent pack : String) (scenarios : Dict ScenarioEntry) (visits : List (String × String))
    → scenario_visits pack scenarios ≡ returned visits
    → visited ref agent visits ≡ names_in_scenarios ref agent pack scenarios
unfolding scenario_visits
scenario_visits-names ref agent pack [] visits h = ap (visited ref agent) (sym (same_of_returned h))
scenario_visits-names ref agent pack ((scenario, entry) ∷ scenarios) visits h =
    let (here, e, h2) = bind-returned (version_visits pack scenario entry.versions) _ visits h in
    let (more, g, h3) = bind-returned (scenario_visits pack scenarios) _ visits h2 in
    both_parts ref agent here more visits _ _ (same_of_returned h3)
      (version_visits-names ref agent pack scenario entry.versions here e)
      (scenario_visits-names ref agent pack scenarios more g)

pack_visits-names :
    (ref agent : String) (packs : Dict PackEntry) (visits : List (String × String))
    → pack_visits packs ≡ returned visits
    → visited ref agent visits ≡ names_in_packs ref agent packs
unfolding pack_visits
pack_visits-names ref agent [] visits h = ap (visited ref agent) (sym (same_of_returned h))
pack_visits-names ref agent ((slug, entry) ∷ packs) visits h =
    let (here, e, h2) =
      bind-returned (scenario_visits entry.pack.metadata.slug entry.scenarios) _ visits h in
    let (more, g, h3) = bind-returned (pack_visits packs) _ visits h2 in
    both_parts ref agent here more visits _ _ (same_of_returned h3)
      (scenario_visits-names ref agent entry.pack.metadata.slug entry.scenarios here e)
      (pack_visits-names ref agent packs more g)

-- The map implements a set: for each agent it lists the references of exactly the scenarios of the
-- registry that have the agent among their participants, and none of them twice.
pub build_scenario_coverage_map-names :
    (snapshot : RegistrySnapshot) (coverage : Dict (List String)) (ref agent : String)
    → build_scenario_coverage_map snapshot ≡ returned coverage
    → (contains (scenarios_of agent coverage) ref ≡ names_in_packs ref agent snapshot.packs)
      × IsUnique (scenarios_of agent coverage)
unfolding build_scenario_coverage_map lookup
build_scenario_coverage_map-names snapshot coverage ref agent h =
    let (visits, e, g) = bind-returned (pack_visits snapshot.packs) _ coverage h in
    (
      ap (λ c. contains (scenarios_of agent c) ref) (sym (same_of_returned g))
          ∙ cover_all-contains visits agent ref []
          ∙ pack_visits-names ref agent snapshot.packs visits e,
      subst (λ c. IsUnique (scenarios_of agent c)) (same_of_returned g)
          (cover_all-IsUnique visits agent [] tt),
    )
