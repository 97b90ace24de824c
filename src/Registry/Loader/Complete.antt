-- ===== src/Registry/Loader/Complete.antt =====
-- No version that is on the disk is left out of a pack that has been loaded.
use examples_service.Common.{
  String, true, ◌≡◌, refl, sym, ap, subst, ◌∙◌, Option, some, [], ◌∷◌, ◌==◌, string_eq, contains,
  arith, Bool-cases, inl, inr, ◌⊎◌, if_true, if_false,
}
use text.Mathlib.TextEquality.{eq_iff}
use examples_service.Common.Dict.{Dict, insert, lookup, lookup-insert}
use examples_service.Js.{Value}
use examples_service.Registry.Includes.{Load, loaded, and_then}
use examples_service.Registry.Disk.{Disk, listing}
use examples_service.Registry.Loader.{
  VersionData, ScenarioData, PackData, load_pack_file, add_named, load_version, is_version,
  version_at, keyed_version, discover_versions, keyed_scenario, scenario_at, discover_scenarios,
  load_pack, keyed_pack,
}
use examples_service.Registry.Loader.Gather.{
  gather_reaches, and_then-loaded, same_of_loaded, loaded_where,
}

module _ (disk : Disk) where
  -- The entry of a key is what the key's own directory gives.
  abbrev pub Found : {V W : Type 0} → (String → Load W) → (V → W) → String → Dict V → Type 0
  Found {V} {W} source part k d = (v : V) × (lookup k d ≡ some v) × (source k ≡ loaded (part v))

  insert-Found :
      {V W : Type 0} (source : String → Load W) (part : V → W) (k j : String) (v : V) (d : Dict V)
      → source j ≡ loaded (part v)
      → ((j == k) ≡ true) ⊎ Found source part k d
      → Found source part k (insert j v d)
  insert-Found source part k j v d h g = elim (Bool-cases (j == k)) [
    | inl e ↦ (
      v,
      lookup-insert j k v d ∙ if_true _ e,
      subst (λ x. source x ≡ loaded (part v)) ((eq_iff j k).0 e) h,
    )
    | inr e ↦ elim g [
      | inl f ↦ absurd (ground arith)
      | inr (w, f, s) ↦ (w, lookup-insert j k v d ∙ if_false _ e ∙ f, s)
    ]
  ]

  abbrev pub version_source : String → String → Load VersionData
  version_source dir version = load_version disk (disk.join dir version)

  abbrev pub whole : VersionData → VersionData
  whole e = e

  version_at-Found :
      (dir k version : String) (a : Option (String × VersionData)) (d : Dict VersionData)
      → version_at disk dir version ≡ loaded a
      → (((version == k) ≡ true) × (is_version disk dir version ≡ true))
        ⊎ Found (version_source dir) whole k d
      → Found (version_source dir) whole k (add_named disk a d)
  unfolding load_version
  version_at-Found dir k version a d h g =
      elim (loaded_where (is_version disk dir version) (load_version disk (disk.join dir version))
        (keyed_version disk version) a h) [
          | inl (e, f) ↦ elim g [
            | inl (same, there) ↦ absurd (ground arith)
            | inr found ↦ rw e found
          ]
          | inr (v, e, f, t) ↦ rw f (
              insert-Found (version_source dir) whole k version v d e
                (elim g [ inl (same, there) ↦ inl same | inr found ↦ inr found ]))
        ]

  discover_versions_complete :
      (dir version : String) (d : Dict VersionData)
      → discover_versions disk dir ≡ loaded d
      → contains (listing disk dir) version ≡ true
      → is_version disk dir version ≡ true
      → Found (version_source dir) whole version d
  unfolding discover_versions
  discover_versions_complete dir version d h m there =
      gather_reaches (version_at disk dir) (add_named disk)
        (Found (version_source dir) whole version) (listing disk dir) [] d version m
        (λ a e r.
          version_at-Found dir version version a e r (inl ((eq_iff version version).1 refl, there)))
        (λ name a e r q. version_at-Found dir version name a e r (inr q)) h

  abbrev pub scenario_source : String → String → Load (Dict VersionData)
  scenario_source dir slug = discover_versions disk (disk.join dir slug)

  abbrev pub versions_of : ScenarioData → Dict VersionData
  versions_of s = s.versions

  add_scenario-Found :
      (dir k slug : String) (versions : Dict VersionData) (d : Dict ScenarioData)
      → scenario_source dir slug ≡ loaded versions
      → (((slug == k) ≡ true) × (versions ≡ [] → ⊥)) ⊎ Found (scenario_source dir) versions_of k d
      → Found
          (scenario_source dir)
          versions_of
          k
          (add_named disk (keyed_scenario disk slug versions) d)
  unfolding discover_versions insert
  add_scenario-Found dir k slug [] d e (inl (same, there)) = absurd (there refl)
  add_scenario-Found dir k slug [] d e (inr found) = found
  add_scenario-Found dir k slug (v ∷ versions) d e (inl (same, there)) =
      insert-Found (scenario_source dir) versions_of k slug (record { versions = v ∷ versions }) d e
        (inl same)
  add_scenario-Found dir k slug (v ∷ versions) d e (inr found) =
      insert-Found (scenario_source dir) versions_of k slug (record { versions = v ∷ versions }) d e
        (inr found)

  scenario_at-Found :
      (dir k slug : String) (a : Option (String × ScenarioData)) (d : Dict ScenarioData)
      → scenario_at disk dir slug ≡ loaded a
      → (((slug == k) ≡ true)
          × (disk.is_directory (disk.join dir slug) ≡ true)
          × ((versions : Dict VersionData)
              → scenario_source dir slug ≡ loaded versions
              → versions ≡ []
              → ⊥))
        ⊎ Found (scenario_source dir) versions_of k d
      → Found (scenario_source dir) versions_of k (add_named disk a d)
  unfolding discover_versions insert
  scenario_at-Found dir k slug a d h g =
      elim (loaded_where (disk.is_directory (disk.join dir slug)) (scenario_source dir slug)
        (keyed_scenario disk slug) a h) [
          | inl (e, f) ↦ elim g [
            | inl (same, there, more) ↦ absurd (ground arith)
            | inr found ↦ rw e found
          ]
          | inr (versions, e, f, t) ↦ rw f (
              add_scenario-Found dir k slug versions d e (elim g [
                | inl (same, there, more) ↦ inl (same, more versions e)
                | inr found ↦ inr found
              ]))
        ]

  not_empty :
      (version : String) (d : Dict VersionData)
      → ((e : VersionData) × (lookup version d ≡ some e))
      → d ≡ []
      → ⊥
  unfolding lookup
  not_empty version [] (e, h) g = absurd (ground arith)
  not_empty version (x ∷ d) h g = ground arith

  discover_scenarios_complete :
      (pack_dir slug version : String) (d : Dict ScenarioData)
      → discover_scenarios disk pack_dir ≡ loaded d
      → contains (listing disk (disk.join pack_dir "scenarios")) slug ≡ true
      → disk.is_directory (disk.join (disk.join pack_dir "scenarios") slug) ≡ true
      → contains (listing disk (disk.join (disk.join pack_dir "scenarios") slug)) version ≡ true
      → is_version disk (disk.join (disk.join pack_dir "scenarios") slug) version ≡ true
      → (s : ScenarioData) × (e : VersionData) × (lookup slug d ≡ some s)
        × (lookup version s.versions ≡ some e)
        × (load_version disk (disk.join (disk.join (disk.join pack_dir "scenarios") slug) version)
            ≡ loaded e)
  unfolding discover_scenarios
  discover_scenarios_complete pack_dir slug version d h m is_dir listed there =
      let dir = disk.join pack_dir "scenarios" in
      let place = disk.join dir slug in
      let (s, found, from) =
        gather_reaches (scenario_at disk dir) (add_named disk)
          (Found (scenario_source dir) versions_of slug) (listing disk dir) [] d slug m
          (λ a e r. scenario_at-Found dir slug slug a e r (
            inl (
              (eq_iff slug slug).1 refl,
              is_dir,
              λ vs f. not_empty version vs (
                  let (x, y, z) = discover_versions_complete place version vs f listed there in
                  (x, y)),
            )))
          (λ name a e r q. scenario_at-Found dir slug name a e r (inr q)) h in
      let (e, served, source) =
        discover_versions_complete place version s.versions from listed there in
      (s, e, found, served, source)

  -- In a pack that has been loaded, every directory `scenarios/<slug>/<version>` that has a
  -- `scenario.yaml` is served, under that slug and that version, with what its files give.
  pub load_pack_complete :
      (dir slug version : String) (key : Value) (p : PackData)
      → load_pack disk dir ≡ loaded (key, p)
      → contains (listing disk (disk.join dir "scenarios")) slug ≡ true
      → disk.is_directory (disk.join (disk.join dir "scenarios") slug) ≡ true
      → contains (listing disk (disk.join (disk.join dir "scenarios") slug)) version ≡ true
      → is_version disk (disk.join (disk.join dir "scenarios") slug) version ≡ true
      → (s : ScenarioData) × (e : VersionData) × (lookup slug p.scenarios ≡ some s)
        × (lookup version s.versions ≡ some e)
        × (load_version disk (disk.join (disk.join (disk.join dir "scenarios") slug) version)
            ≡ loaded e)
  unfolding load_pack_file discover_scenarios
  load_pack_complete dir slug version key p h m is_dir listed there =
      let (v, e, g) =
        and_then-loaded (load_pack_file disk (disk.join dir "pack.yaml"))
          (λ pack. and_then (discover_scenarios disk dir) (λ s. loaded (keyed_pack disk pack s)))
          (key, p) h in
      let (d, i, j) =
        and_then-loaded (discover_scenarios disk dir) (λ s. loaded (keyed_pack disk v s)) (key, p)
          g in
      let (s, w, found, served, source) =
        discover_scenarios_complete dir slug version d i m is_dir listed there in
      (
        s,
        w,
        ap (λ (x : Value × PackData). lookup slug x.1.scenarios) (sym (same_of_loaded j)) ∙ found,
        served,
        source,
      )
