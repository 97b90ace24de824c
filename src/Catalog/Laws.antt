-- ===== src/Catalog/Laws.antt =====
-- What the summary of a scenario shows.
use examples_service.Common.{
  String, true, ◌≡◌, refl, sym, ap, ◌∙◌, ◌⊎◌, inl, inr, some, List, [], ◌∷◌, arith, contains,
  string_eq, ◌==◌, subst, Bool-cases,
}
use examples_service.Common.Dict.{Dict, lookup, keys}
use examples_service.Js.{Value, get}
use examples_service.Errors.{ok, err, Result}
use examples_service.Registry.{RegistrySnapshot, PackEntry, ScenarioEntry, ScenarioVersionEntry}
use examples_service.Registry.Index.{get_pack}
use examples_service.Compiler.Outcome.{returned, of_result, ◌>>=◌, bind-returned, same_of_returned}
use examples_service.Catalog.{
  ScenarioSummary, refs_of, summary_of_latest, latest_in, runtime_kind_of, summary_with,
  scenario_summary, summaries_of, list_scenarios, refs_of_items,
}
use examples_service.Catalog.Sorting.{sort, last_of, Greatest, contains-sort, last_of-sort}

-- A summary shows a version.
abbrev pub Shows : ScenarioVersionEntry → ScenarioSummary → Type 0
Shows e s =
    (s.name ≡ e.scenario.metadata.name)
    × (s.summary ≡ e.scenario.metadata.summary)
    × (s.tags ≡ e.scenario.metadata.tags)
    × (s.policy_version ≡ get "policyVersion" e.scenario.launch)
    × (s.policy_hints ≡ get "policyHints" e.scenario.launch)
    × (s.runtime_kind ≡ runtime_kind_of e)
    × ((w : String) → contains s.templates w ≡ contains (keys e.templates) w)

-- A summary lists the versions of a scenario and shows the greatest of them, if there is any.
abbrev pub Sums : String → ScenarioEntry → ScenarioSummary → Type 0
Sums slug entry s =
    (s.scenario ≡ slug)
    × ((w : String) → contains s.versions w ≡ contains (keys entry.versions) w)
    × (((entry.versions ≡ []) × (s.name ≡ slug))
        ⊎ ((v : String) × (e : ScenarioVersionEntry) × (lookup v entry.versions ≡ some e)
            × Greatest (keys entry.versions) v
            × Shows e s))

lookup-there :
    (v : String) (d : Dict ScenarioVersionEntry)
    → contains (keys d) v ≡ true
    → (e : ScenarioVersionEntry) × (lookup v d ≡ some e)
unfolding keys lookup
lookup-there v [] h = absurd (ground arith)
lookup-there v ((k, x) ∷ d) h = elim (Bool-cases (k == v)) [
  | inl e ↦ (x, ground arith)
  | inr e ↦ let (y, there) = lookup-there v d (ground arith) in (y, ground arith)
]

summary_of_latest-Shows :
    (slug : String) (versions : List String) (e : ScenarioVersionEntry) (refs : List Value)
    → Shows e (summary_of_latest slug versions e refs)
unfolding sort
summary_of_latest-Shows slug versions e refs =
    (refl, refl, refl, refl, refl, refl, contains-sort (keys e.templates))

summary_with-Shows :
    (slug : String) (versions : List String) (e : ScenarioVersionEntry) (s : ScenarioSummary)
    → summary_with slug versions (some e) ≡ returned s
    → (s.scenario ≡ slug) × (s.versions ≡ versions) × Shows e s
unfolding get refs_of_items sort keys
summary_with-Shows slug versions e s h =
    let (refs, _, g) =
      bind-returned (refs_of (get "participants" e.scenario.launch))
        (λ refs. returned (summary_of_latest slug versions e refs)) s h in
    subst (λ x. (x.scenario ≡ slug) × (x.versions ≡ versions) × Shows e x) (same_of_returned g)
      (refl, refl, summary_of_latest-Shows slug versions e refs)

versions-Sums :
    (slug : String) (d : Dict ScenarioVersionEntry) (s : ScenarioSummary)
    → summary_with slug (sort (keys d)) (latest_in d (last_of (sort (keys d)))) ≡ returned s
    → Sums slug (record { versions = d }) s
unfolding get refs_of_items sort keys lookup last_of
versions-Sums slug [] s h =
    subst (Sums slug (record { versions = [] })) (same_of_returned h)
      (refl, (λ w. refl), inl (refl, refl))
versions-Sums slug ((k, x) ∷ d) s h =
    let all = (k, x) ∷ d in
    let (v, last, (there, greatest)) = last_of-sort k (keys d) in
    let (e, found) = lookup-there v all there in
    let (a, b, c) =
      summary_with-Shows slug (sort (keys all)) e s (
        ap (summary_with slug (sort (keys all))) (sym found ∙ ap (latest_in all) (sym last)) ∙ h) in
    (
      a,
      (λ w. ap (λ vs. contains vs w) b ∙ contains-sort (keys all) w),
      inr (v, e, found, (there, greatest), c),
    )

-- The summaries of the scenarios of a pack, in their order.
abbrev pub AllSums : Dict ScenarioEntry → List ScenarioSummary → Type 0
AllSums [] [] = Unit
AllSums [] (s ∷ ss) = ⊥
AllSums ((slug, entry) ∷ d) [] = ⊥
AllSums ((slug, entry) ∷ d) (s ∷ ss) = Sums slug entry s × AllSums d ss

summaries_of-AllSums :
    (d : Dict ScenarioEntry) (ss : List ScenarioSummary)
    → summaries_of d ≡ returned ss
    → AllSums d ss
unfolding summaries_of
summaries_of-AllSums [] ss h = subst (AllSums []) (same_of_returned h) tt
summaries_of-AllSums ((slug, entry) ∷ d) ss h =
    let (s, e, f) =
      bind-returned (scenario_summary slug entry)
        (λ s. summaries_of d >>= (λ more. returned (s ∷ more))) ss h in
    let (more, g, i) = bind-returned (summaries_of d) (λ more. returned (s ∷ more)) ss f in
    subst (AllSums ((slug, entry) ∷ d)) (same_of_returned i)
      (versions-Sums slug entry.versions s e, summaries_of-AllSums d more g)

returned_of_ok : (r : Result PackEntry) (p : PackEntry) → of_result r ≡ returned p → r ≡ ok p
returned_of_ok (err e) p h = absurd (ground arith)
returned_of_ok (ok q) p h = ap ok (same_of_returned h)

-- Where the scenarios of a pack are listed, the pack is there, and there is one summary for each of
-- its scenarios, in their order. It lists the versions of the scenario, and shows the name, summary,
-- tags, runtime, policy and templates of the version that is greatest as a text; a scenario without
-- versions goes by its slug.
pub list_scenarios-AllSums :
    (snapshot : RegistrySnapshot) (slug : String) (ss : List ScenarioSummary)
    → list_scenarios snapshot slug ≡ returned ss
    → (pack : PackEntry) × (get_pack snapshot slug ≡ ok pack) × AllSums pack.scenarios ss
unfolding list_scenarios
list_scenarios-AllSums snapshot slug ss h =
    let (pack, e, f) =
      bind-returned (of_result (get_pack snapshot slug)) (λ pack. summaries_of pack.scenarios) ss
        h in
    (pack, returned_of_ok (get_pack snapshot slug) pack e, summaries_of-AllSums pack.scenarios ss f)
