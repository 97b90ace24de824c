-- ===== src/Registry/Loader/Sound.antt =====
-- Everything in the registry comes from the file at its place, and has been checked.
use examples_service.Common.{
  ℕ, String, true, ◌≡◌, refl, sym, ap, subst, ◌∙◌, Option, none, some, [], ◌∷◌, string_eq, contains,
  arith, Bool-cases, inl, inr, ◌⊎◌, if_true, if_false,
}
use examples_service.Common.Dict.{Dict, insert}
use examples_service.Js.{Value, is_truthy}
use examples_service.Registry.Includes.{Load, loaded, thrown, failed, out_of_fuel, and_then}
use examples_service.Registry.Disk.{Disk, listing, load_yaml, parse_yaml_file}
use examples_service.Registry.Loader.{
  VersionData, ScenarioData, PackData, RegistryData, slug_of, check_kind, check_slug,
  load_pack_file, add_entry, add_named, discover_versions, keyed_scenario, scenario_at,
  discover_scenarios, load_pack, keyed_pack, guarded, is_pack, pack_at, load_all, registry_of,
}
use examples_service.Registry.Loader.Gather.{
  gather, gather_inv, and_then-loaded, same_of_loaded, loaded_where, EntryMap, EntryAll, set_entry,
  set_entry-EntryAll, insert-EntryAll,
}
use examples_service.Registry.Loader.Laws.{
  IsOfKind, IsScenario, IsPack, AreVersions, check_kind-IsOfKind, passed, parse-load,
  discover_versions-AreVersions,
}

module _ (disk : Disk) where
  abbrev AreScenarios : String → Dict ScenarioData → Type 0
  AreScenarios dir = EntryAll (λ slug e. IsScenario disk (disk.join dir slug) e)

  add_scenario :
      (dir slug : String) (versions : Dict VersionData) (d : Dict ScenarioData)
      → AreVersions disk (disk.join dir slug) versions
      → AreScenarios dir d
      → AreScenarios dir (add_named disk (keyed_scenario disk slug versions) d)
  unfolding insert
  add_scenario dir slug [] d v p = p
  add_scenario dir slug (e ∷ versions) d v p =
      insert-EntryAll (λ name x. IsScenario disk (disk.join dir name) x) slug
        (record { versions = e ∷ versions }) d ((λ h. ground arith), v) p

  scenario_at-IsScenario :
      (dir slug : String) (a : Option (String × ScenarioData)) (d : Dict ScenarioData)
      → scenario_at disk dir slug ≡ loaded a
      → AreScenarios dir d
      → AreScenarios dir (add_named disk a d)
  unfolding discover_versions insert
  scenario_at-IsScenario dir slug a d h p =
      elim (loaded_where (disk.is_directory (disk.join dir slug))
        (discover_versions disk (disk.join dir slug)) (keyed_scenario disk slug) a h) [
          | inl (e, f) ↦ rw e p
          | inr (versions, e, f, g) ↦ rw f (
              add_scenario dir slug versions d
                (discover_versions-AreVersions disk (disk.join dir slug) versions e) p)
        ]

  discover_scenarios-AreScenarios :
      (dir : String) (d : Dict ScenarioData)
      → discover_scenarios disk dir ≡ loaded d
      → AreScenarios (disk.join dir "scenarios") d
  unfolding discover_scenarios
  discover_scenarios-AreScenarios dir d h =
      let place = disk.join dir "scenarios" in
      gather_inv (scenario_at disk place) (add_named disk) (AreScenarios place) (listing disk place)
        [] d (λ slug a e m r p. scenario_at-IsScenario place slug a e r p) tt h

  load_pack_file_lem :
      (path : String) (v : Value)
      → load_pack_file disk path ≡ loaded v
      → (load_yaml disk path ≡ loaded v)
        × IsOfKind "ScenarioPack" v
        × (is_truthy (slug_of v) ≡ true)
  unfolding load_pack_file
  load_pack_file_lem path v h =
      let (w, e, g) =
        and_then-loaded (parse_yaml_file disk path)
          (λ w. and_then (check_kind "ScenarioPack" path w) (λ x. check_slug path x)) v h in
      let (x, i, j) =
        and_then-loaded (check_kind "ScenarioPack" path w) (λ x. check_slug path x) v g in
      let (same, kind) = check_kind-IsOfKind "ScenarioPack" path w x i in
      let (slug, last) = passed (is_truthy (slug_of x)) _ _ v j in
      let given = same_of_loaded last in
      (
        parse-load disk path w e ∙ ap loaded (sym same ∙ given),
        subst (IsOfKind "ScenarioPack") (sym same ∙ given) kind,
        ap (λ y. is_truthy (slug_of y)) (sym given) ∙ slug,
      )

  abbrev PackOf : String → Value × PackData → Type 0
  PackOf dir (slug, p) = IsPack disk dir slug p

  load_pack-IsPack :
      (dir : String) (p : Value × PackData) → load_pack disk dir ≡ loaded p → PackOf dir p
  unfolding load_pack_file discover_scenarios
  load_pack-IsPack dir p h =
      let (v, e, g) =
        and_then-loaded (load_pack_file disk (disk.join dir "pack.yaml"))
          (λ pack. and_then (discover_scenarios disk dir) (λ s. loaded (keyed_pack disk pack s))) p
          h in
      let (s, i, j) =
        and_then-loaded (discover_scenarios disk dir) (λ s. loaded (keyed_pack disk v s)) p g in
      let (file, kind, slug) = load_pack_file_lem (disk.join dir "pack.yaml") v e in
      subst (PackOf dir) (same_of_loaded j)
        (file, kind, refl, slug, discover_scenarios-AreScenarios dir s i)

  guarded-loaded :
      (l : Load (Value × PackData)) (a : Option (Value × PackData))
      → guarded disk l ≡ loaded a
      → (a ≡ none) ⊎ ((p : Value × PackData) × (l ≡ loaded p) × (a ≡ some p))
  guarded-loaded out_of_fuel a h = absurd (ground arith)
  guarded-loaded (thrown e) a h = absurd (ground arith)
  guarded-loaded (failed r) a h = inl (sym (same_of_loaded h))
  guarded-loaded (loaded p) a h = inr (p, refl, sym (same_of_loaded h))

  -- A pack of the registry: it comes from a directory that is listed and has a `pack.yaml`.
  abbrev pub IsServed : Value → PackData → Type 0
  IsServed slug p =
      (entry : String) × (contains (listing disk disk.paths.root) entry ≡ true)
      × (is_pack disk disk.paths.root entry ≡ true)
      × IsPack disk (disk.join disk.paths.root entry) slug p

  pack_at-IsServed :
      (entry : String) (a : Option (Value × PackData)) (d : EntryMap PackData)
      → contains (listing disk disk.paths.root) entry ≡ true
      → pack_at disk disk.paths.root entry ≡ loaded a
      → EntryAll IsServed d
      → EntryAll IsServed (add_entry disk a d)
  unfolding load_pack_file discover_scenarios set_entry
  pack_at-IsServed entry a d m h p = elim (Bool-cases (is_pack disk disk.paths.root entry)) [
    | inr e ↦ rw (← same_of_loaded (sym (if_false _ e) ∙ h)) p
    | inl e ↦
        elim (guarded-loaded (load_pack disk (disk.join disk.paths.root entry)) a
          (sym (if_true _ e) ∙ h)) [
            | inl f ↦ rw f p
            | inr ((slug, q), f, g) ↦ rw g (
                set_entry-EntryAll IsServed slug q d
                  (entry, m, e, load_pack-IsPack (disk.join disk.paths.root entry) (slug, q) f) p)
          ]
  ]

  -- Whatever the registry serves has been read from the file at its place and has been checked. A
  -- pack comes from a directory of the root that is listed, does not begin with `_` and has a
  -- `pack.yaml`; its slug is there. A scenario has a version, and a version comes from the
  -- `scenario.yaml` in `scenarios`, the scenario's slug and its version below the pack. A pack and a
  -- version are of the right `apiVersion` and `kind`. A template comes from a file that is listed in
  -- `templates` of the version, ends in `.yaml` or `.yml`, is of its `kind` and stands under its slug.
  pub load_all-IsServed :
      (now : ℕ) (registry : RegistryData)
      → load_all disk now ≡ loaded registry
      → (registry.loaded_at ≡ now) × EntryAll IsServed registry.packs
  unfolding load_all
  load_all-IsServed now registry h =
      let root = disk.paths.root in
      let (packs, e, g) =
        and_then-loaded (gather (pack_at disk root) (add_entry disk) (listing disk root) [])
          (λ packs. loaded (registry_of disk now packs)) registry h in
      subst (λ r. (r.loaded_at ≡ now) × EntryAll IsServed r.packs) (same_of_loaded g)
        (
          refl,
          gather_inv (pack_at disk root) (add_entry disk) (EntryAll IsServed) (listing disk root) []
              packs (λ entry a d m r p. pack_at-IsServed entry a d m r p) tt e,
        )
