-- ===== src/Registry/Loader/Laws.antt =====
-- What the registry holds is what the files at its places say, and has been checked.
use examples_service.Common.{
  String, Bool, true, false, not, ◌||◌, contains, if_true, if_false, ◌≡◌, refl, sym, ap, subst, ◌∙◌,
  Option, [], string_eq, arith, if◌then◌else◌, Bool-cases, inl, inr,
}
use text.Mathlib.TextEquality.{eq_iff}
use examples_service.Common.Dict.{Dict, insert}
use examples_service.Js.{Value, undefined, null, str, is_truthy, to_text, get}
use examples_service.Errors.{AppException}
use examples_service.Compiler.Outcome.{property}
use examples_service.Registry.Includes.{Load, wrap, loaded, thrown, failed, out_of_fuel, and_then}
use examples_service.Registry.Disk.{Disk, listing, is_yaml, ends_with, load_yaml, parse_yaml_file}
use examples_service.Registry.Loader.{
  VersionData, ScenarioData, PackData, api_version, slug_of, is_exactly, check_kind, check_version,
  read_property, load_scenario_file, keyed_template, template_at, add_entry, add_named,
  discover_templates, load_version, is_version, version_at, keyed_version, discover_versions,
}
use examples_service.Registry.Loader.Gather.{
  gather_inv, and_then-loaded, same_of_loaded, loaded_where, EntryMap, EntryAll, set_entry,
  set_entry-EntryAll, insert-EntryAll,
}

-- The value is of the version and the kind that are read.
abbrev pub IsOfKind : String → Value → Type 0
IsOfKind kind v = (property "apiVersion" v ≡ str api_version) × (property "kind" v ≡ str kind)

is_exactly_sound : (v : Value) (t : String) → is_exactly v t ≡ true → v ≡ str t
is_exactly_sound (str s) t h = ap str ((eq_iff s t).0 h)
is_exactly_sound v t h = ground arith

property_read : (v w : Value) (key : String) → read_property v key ≡ loaded w → property key v ≡ w
unfolding get to_text
property_read undefined w key h = ground arith
property_read null w key h = ground arith
property_read v w key h = same_of_loaded h

pub passed :
    (test : Bool) (e : AppException) (rest : Load Value) (w : Value)
    → (if not test then thrown e else rest) ≡ loaded w
    → (test ≡ true) × (rest ≡ loaded w)
passed true e rest w h = (refl, h)
passed false e rest w h = absurd (ground arith)

pub check_kind-IsOfKind :
    (kind path : String) (v w : Value)
    → check_kind kind path v ≡ loaded w
    → (w ≡ v) × IsOfKind kind v
unfolding get to_text
check_kind-IsOfKind kind path v w h =
    let (version, e, g) =
      and_then-loaded (read_property v "apiVersion") (check_version kind path v) w h in
    let (a, more) = passed (is_exactly version api_version) _ _ w g in
    let (b, last) = passed (is_exactly (property "kind" v) kind) _ _ w more in
    (
      sym (same_of_loaded last),
      (
        property_read v version "apiVersion" e ∙ is_exactly_sound version api_version a,
        is_exactly_sound (property "kind" v) kind b,
      ),
    )

-- What is loaded of a file is its value, when that parses.
pub parse-load :
    (disk : Disk) (path : String) (v : Value)
    → parse_yaml_file disk path ≡ loaded v
    → load_yaml disk path ≡ loaded v
parse-load disk path v h =
    elim (load_yaml disk path) as (λ l. wrap path l ≡ loaded v → l ≡ loaded v) [
      | loaded w ↦ λ g. g
      | thrown e ↦ λ g. g
      | failed r ↦ λ g. absurd (ground arith)
      | out_of_fuel ↦ λ g. g
    ]
      h

module _ (disk : Disk) where
  -- A template comes from a file of the directory, whose name ends in `.yaml` or `.yml`, is of its
  -- kind, and stands under its slug.
  abbrev pub IsTemplate : String → Value → Value → Type 0
  IsTemplate dir slug v =
      (file : String) × (contains (listing disk dir) file ≡ true)
      × ((ends_with file ".yaml" || ends_with file ".yml") ≡ true)
      × (load_yaml disk (disk.join dir file) ≡ loaded v)
      × (property "kind" v ≡ str "ScenarioTemplate")
      × (slug ≡ slug_of v)
      × (is_truthy slug ≡ true)

  abbrev pub IsVersion : String → VersionData → Type 0
  IsVersion dir e =
      (load_yaml disk (disk.join dir "scenario.yaml") ≡ loaded e.scenario)
      × IsOfKind "ScenarioVersion" e.scenario
      × EntryAll (IsTemplate (disk.join dir "templates")) e.templates

  -- A scenario has versions, each of them from its directory.
  abbrev pub IsScenario : String → ScenarioData → Type 0
  IsScenario dir s =
      (s.versions ≡ [] → ⊥) × EntryAll (λ version e. IsVersion (disk.join dir version) e) s.versions

  abbrev pub IsPack : String → Value → PackData → Type 0
  IsPack dir slug p =
      (load_yaml disk (disk.join dir "pack.yaml") ≡ loaded p.pack)
      × IsOfKind "ScenarioPack" p.pack
      × (slug ≡ slug_of p.pack)
      × (is_truthy slug ≡ true)
      × EntryAll (λ s e. IsScenario (disk.join (disk.join dir "scenarios") s) e) p.scenarios

  add-IsTemplate :
      (dir file : String) (v : Value) (d : EntryMap Value)
      → contains (listing disk dir) file ≡ true
      → (ends_with file ".yaml" || ends_with file ".yml") ≡ true
      → load_yaml disk (disk.join dir file) ≡ loaded v
      → EntryAll (IsTemplate dir) d
      → EntryAll (IsTemplate dir) (add_entry disk (keyed_template disk v) d)
  unfolding is_truthy get set_entry
  add-IsTemplate dir file v d m y l h =
      elim (Bool-cases (is_exactly (property "kind" v) "ScenarioTemplate")) [
        | inl e ↦ elim (Bool-cases (is_truthy (slug_of v))) [
          | inl f ↦
              rw (e, f)
                (set_entry-EntryAll (IsTemplate dir) (slug_of v) v d
                  (file, m, y, l, is_exactly_sound _ _ e, refl, f) h)
          | inr f ↦ rw (e, f) h
        ]
        | inr e ↦ rw e h
      ]

  template_at-IsTemplate :
      (dir file : String) (a : Option (Value × Value)) (d : EntryMap Value)
      → contains (listing disk dir) file ≡ true
      → template_at disk dir file ≡ loaded a
      → EntryAll (IsTemplate dir) d
      → EntryAll (IsTemplate dir) (add_entry disk a d)
  unfolding load_yaml is_truthy get set_entry
  template_at-IsTemplate dir file a d m h p = elim (Bool-cases (is_yaml file)) [
    | inr other ↦ rw (← same_of_loaded (sym (if_false _ other) ∙ h)) p
    | inl yaml ↦
        let (v, f, g) =
          and_then-loaded (parse_yaml_file disk (disk.join dir file))
            (λ v. loaded (keyed_template disk v)) a (sym (if_true _ yaml) ∙ h) in
        rw (← same_of_loaded g)
          (add-IsTemplate dir file v d m yaml (parse-load disk (disk.join dir file) v f) p)
  ]

  discover_templates_lem :
      (dir : String) (d : EntryMap Value)
      → discover_templates disk dir ≡ loaded d
      → EntryAll (IsTemplate (disk.join dir "templates")) d
  unfolding discover_templates
  discover_templates_lem dir d h =
      gather_inv (template_at disk (disk.join dir "templates")) (add_entry disk)
        (EntryAll (IsTemplate (disk.join dir "templates")))
        (listing disk (disk.join dir "templates")) [] d
        (λ file a e m r p. template_at-IsTemplate (disk.join dir "templates") file a e m r p) tt h

  load_scenario_file_lem :
      (path : String) (v : Value)
      → load_scenario_file disk path ≡ loaded v
      → (load_yaml disk path ≡ loaded v) × IsOfKind "ScenarioVersion" v
  unfolding load_scenario_file
  load_scenario_file_lem path v h =
      let (w, e, g) =
        and_then-loaded (parse_yaml_file disk path) (check_kind "ScenarioVersion" path) v h in
      let (same, kind) = check_kind-IsOfKind "ScenarioVersion" path w v g in
      (
        parse-load disk path w e ∙ ap loaded (sym same),
        subst (IsOfKind "ScenarioVersion") (sym same) kind,
      )

  load_version-IsVersion :
      (dir : String) (e : VersionData) → load_version disk dir ≡ loaded e → IsVersion dir e
  unfolding load_version
  load_version-IsVersion dir e h =
      let (s, f, g) =
        and_then-loaded (load_scenario_file disk (disk.join dir "scenario.yaml"))
          (λ s.
            and_then (discover_templates disk dir)
              (λ t. loaded (record { scenario = s; templates = t })))
          e h in
      let (t, i, j) =
        and_then-loaded (discover_templates disk dir)
          (λ t. loaded (record { scenario = s; templates = t })) e g in
      let (file, kind) = load_scenario_file_lem (disk.join dir "scenario.yaml") s f in
      subst (IsVersion dir) (same_of_loaded j) (file, kind, discover_templates_lem dir t i)

  abbrev pub AreVersions : String → Dict VersionData → Type 0
  AreVersions dir = EntryAll (λ version e. IsVersion (disk.join dir version) e)

  version_at-IsVersion :
      (dir version : String) (a : Option (String × VersionData)) (d : Dict VersionData)
      → version_at disk dir version ≡ loaded a
      → AreVersions dir d
      → AreVersions dir (add_named disk a d)
  unfolding load_version insert
  version_at-IsVersion dir version a d h p =
      elim (loaded_where (is_version disk dir version) (load_version disk (disk.join dir version))
        (keyed_version disk version) a h) [
          | inl (e, f) ↦ rw e p
          | inr (v, e, f, g) ↦ rw f (
              insert-EntryAll (λ name x. IsVersion (disk.join dir name) x) version v d
                (load_version-IsVersion (disk.join dir version) v e) p)
        ]

  pub discover_versions-AreVersions :
      (dir : String) (d : Dict VersionData)
      → discover_versions disk dir ≡ loaded d
      → AreVersions dir d
  unfolding discover_versions
  discover_versions-AreVersions dir d h =
      gather_inv (version_at disk dir) (add_named disk) (AreVersions dir) (listing disk dir) [] d
        (λ version a e m r p. version_at-IsVersion dir version a e r p) tt h
