-- ===== src/Registry/Index.antt =====
-- The lookups of src/registry/registry-index.service.ts in a snapshot.
use examples_service.Common.{
  String, ◌<>◌, Option, none, some, ◌≡◌, refl, sym, ap, ◌∙◌, ◌↔◌, ◌⊎◌, inl, inr, Option-cases,
}
use examples_service.Common.Dict.{lookup}
use examples_service.Errors.{
  Result, ok, err, ◌>>=◌, ErrorCode, AppException, app_exception, not_found,
}
use examples_service.Errors.{
  pack_not_found, scenario_not_found, version_not_found, template_not_found,
}
use examples_service.Registry.{RegistrySnapshot, PackEntry, ScenarioEntry, ScenarioVersionEntry}
use examples_service.Registry.{ScenarioVersionFile, ScenarioTemplateFile}

-- `if (!found) throw …`
abbrev found_or {ℓ} : {A : Type ℓ} → ErrorCode → String → Option A → Result A
found_or code message none = err (app_exception code message not_found)
found_or code message (some a) = ok a

unfoldable pub get_pack : RegistrySnapshot → String → Result PackEntry
get_pack snapshot slug =
    found_or pack_not_found ("pack not found: " <> slug) (lookup slug snapshot.packs)

abbrev find_scenario : String → String → PackEntry → Result ScenarioEntry
find_scenario pack scenario entry =
    found_or scenario_not_found ("scenario not found: " <> pack <> "/" <> scenario)
      (lookup scenario entry.scenarios)

abbrev find_version : String → String → String → ScenarioEntry → Result ScenarioVersionEntry
find_version pack scenario version entry =
    found_or version_not_found ("version not found: " <> pack <> "/" <> scenario <> "@" <> version)
      (lookup version entry.versions)

abbrev find_template :
    String → String → String → String → ScenarioVersionEntry → Result ScenarioTemplateFile
find_template pack scenario version template entry =
    found_or template_not_found
      ("template not found: " <> template <> " for " <> pack <> "/" <> scenario <> "@" <> version)
      (lookup template entry.templates)

unfoldable pub get_scenario_version :
    RegistrySnapshot → String → String → String → Result ScenarioVersionFile
get_scenario_version snapshot pack_slug scenario_slug version = do
  pack ← get_pack snapshot pack_slug
  scenario ← find_scenario pack_slug scenario_slug pack
  entry ← find_version pack_slug scenario_slug version scenario
  ok entry.scenario

unfoldable pub get_template :
    RegistrySnapshot → String → String → String → String → Result ScenarioTemplateFile
get_template snapshot pack_slug scenario_slug version template_slug = do
  pack ← get_pack snapshot pack_slug
  scenario ← find_scenario pack_slug scenario_slug pack
  entry ← find_version pack_slug scenario_slug version scenario
  find_template pack_slug scenario_slug version template_slug entry

-- The entry of a version, with everything on the way to it.
abbrev version_in : String → Option ScenarioEntry → Option ScenarioVersionEntry
version_in version none = none
version_in version (some scenario) = lookup version scenario.versions

abbrev scenario_in : String → Option PackEntry → Option ScenarioEntry
scenario_in scenario none = none
scenario_in scenario (some pack) = lookup scenario pack.scenarios

unfoldable pub entry_at : RegistrySnapshot → String → String → String → Option ScenarioVersionEntry
entry_at snapshot pack scenario version =
    version_in version (scenario_in scenario (lookup pack snapshot.packs))

not_ok_of_err {ℓ} : {A : Type ℓ} {e : AppException} {a : A} → err e ≡ ok a → ⊥
not_ok_of_err h = cc

get_scenario_version_cases :
    (snapshot : RegistrySnapshot) (pack scenario version : String)
    → ((e : ScenarioVersionEntry) × (entry_at snapshot pack scenario version ≡ some e)
        × (get_scenario_version snapshot pack scenario version ≡ ok e.scenario)
        × ((slug : String)
            → get_template snapshot pack scenario version slug
              ≡ find_template pack scenario version slug e))
      ⊎ ((entry_at snapshot pack scenario version ≡ none)
          × ((x : AppException) × (get_scenario_version snapshot pack scenario version ≡ err x)
              × ((slug : String) → get_template snapshot pack scenario version slug ≡ err x)))
unfolding get_scenario_version get_template get_pack entry_at
get_scenario_version_cases snapshot pack scenario version =
    elim (Option-cases (lookup pack snapshot.packs)) [
      | inl e ↦ rw e (inr (refl, (_, refl, λ slug. refl)))
      | inr (p, e) ↦ rw e (elim (Option-cases (lookup scenario p.scenarios)) [
        | inl f ↦ rw f (inr (refl, (_, refl, λ slug. refl)))
        | inr (s, f) ↦ rw f (elim (Option-cases (lookup version s.versions)) [
          | inl g ↦ rw g (inr (refl, (_, refl, λ slug. refl)))
          | inr (v, g) ↦ rw g (inl (v, refl, refl, λ slug. refl))
        ])
      ])
    ]

find_template_iff :
    (pack scenario version slug : String) (e : ScenarioVersionEntry) (t : ScenarioTemplateFile)
    → (find_template pack scenario version slug e ≡ ok t) ↔ (lookup slug e.templates ≡ some t)
find_template_iff pack scenario version slug e t = elim (Option-cases (lookup slug e.templates)) [
  | inl none_there ↦ rw none_there (λ h. absurd (not_ok_of_err h), λ h. cc)
  | inr (u, there) ↦ rw there (λ h. cc, λ h. cc)
]

-- A scenario is found exactly where the registry has an entry at its three slugs, and a template
-- exactly where that entry has it; so every template that is found belongs to a scenario that is.
pub get_template_iff :
    (snapshot : RegistrySnapshot) (pack scenario version slug : String) (f : ScenarioVersionFile)
    (t : ScenarioTemplateFile)
    → ((get_scenario_version snapshot pack scenario version ≡ ok f) ↔ (
        (e : ScenarioVersionEntry) × (entry_at snapshot pack scenario version ≡ some e)
        × (e.scenario ≡ f)))
      × ((get_template snapshot pack scenario version slug ≡ ok t) ↔ (
          (e : ScenarioVersionEntry) × (entry_at snapshot pack scenario version ≡ some e)
          × (lookup slug e.templates ≡ some t)))
get_template_iff snapshot pack scenario version slug f t =
    elim (get_scenario_version_cases snapshot pack scenario version) [
      | inl (e, there, found, template) ↦
          let same : (d : ScenarioVersionEntry)
              → entry_at snapshot pack scenario version ≡ some d
              → d ≡ e =
            λ d h. cc in
          (
            (
              λ h. (e, there, cc),
              λ (d, h, k). found ∙ ap (λ x. ok x.scenario) (sym (same d h)) ∙ ap ok k,
            ),
            (
              λ h. (
                e,
                there,
                (find_template_iff pack scenario version slug e t).0 (sym (template slug) ∙ h),
              ),
              λ (d, h, k).
                  template slug
                  ∙ (find_template_iff pack scenario version slug e t).1
                      (ap (λ x. lookup slug x.templates) (sym (same d h)) ∙ k),
            ),
          )
      | inr (gone, (x, failed, template)) ↦ (
        (λ h. absurd (not_ok_of_err (sym failed ∙ h)), λ (d, h, k). absurd (cc)),
        (λ h. absurd (not_ok_of_err (sym (template slug) ∙ h)), λ (d, h, k). absurd (cc)),
      )
    ]
