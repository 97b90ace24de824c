-- ===== src/Scenario/Lint/Pack.antt =====
-- `lintPack` of scripts/scenario/lint.ts.
use Prim.Native.Char.{code}
use examples_service.Common.{
  ℕ, suc, String, ◌<>◌, Bool, true, false, not, ◌&&◌, ◌||◌, List, [], ◌∷◌, ◌++◌, contains, leb, ltb,
  ◌==◌, nat_eq, string_eq, any, if◌then◌else◌,
}
use examples_service.Common.{length}
use examples_service.Common.Text.{codes, code_units}
use examples_service.Js.{
  Value, undefined, null, bool, num, str, arr, Items, nil, cons, get, is_truthy, to_text,
}
use examples_service.Compiler.Outcome.{property}
use examples_service.Registry.Includes.{Load, out_of_fuel, thrown, failed, loaded}
use examples_service.Registry.Disk.{exists, is_yaml, ends_with, load_yaml}
use examples_service.Registry.Loader.{is_exactly}
use examples_service.Scenario.Ending.{Run, ill_typed, done, ◌>>=◌, items_of, read, is_known}
use examples_service.Scenario.Ending
use examples_service.Scenario.Validate.Checks.{lacks_description}
use examples_service.Scenario.Lint.Finding.{
  Tree, LintFinding, error_at, warning_at, read_dir, stat, each, each_item,
}
use examples_service.Scenario.Lint.Discover.{gather_all_includes, list_scenario_version_dirs}

-- `[a-z0-9]`
abbrev is_slug_char : ℕ → Bool
is_slug_char c = leb b'a' c && leb c b'z' || leb b'0' c && leb c b'9'

abbrev is_slug_rest : String → Bool
is_slug_rest String.[] = true
is_slug_rest (String.◌∷◌ c s) = (is_slug_char (code c) || code c == b'-') && is_slug_rest s

-- `SLUG_RE.test(text)`
unfoldable pub is_slug : String → Bool
is_slug String.[] = false
is_slug (String.◌∷◌ c s) = is_slug_char (code c) && is_slug_rest s

-- `SLUG_RE.test(v ?? '')`
abbrev tests_slug : Value → Bool
tests_slug undefined = is_slug ""
tests_slug null = is_slug ""
tests_slug v = is_slug (to_text v)

abbrev pack_slug_findings : String → Value → List LintFinding
pack_slug_findings file slug =
    if tests_slug slug
    then []
    else error_at file ("pack slug must be kebab-case: \"" <> to_text slug <> "\"")

-- `slug && !SLUG_RE.test(slug)`
abbrev pub has_bad_slug : Value → Bool
has_bad_slug slug = is_truthy slug && not (is_slug (to_text slug))

abbrev pub scenario_slug_findings : String → Value → List LintFinding
scenario_slug_findings file slug =
    if has_bad_slug slug
    then error_at file ("scenario slug must be kebab-case: \"" <> to_text slug <> "\"")
    else []

-- `Set.has` for the truthy ids of policies that files gave: no object is one of another file.
abbrev same_value : Value → Value → Bool
same_value (str s) (str t) = s == t
same_value (num m) (num n) = m == n
same_value (bool b) (bool c) = if b then c else not c
same_value v w = false

abbrev policy_findings : String → List Value → Value → List LintFinding
policy_findings file policies version =
    if is_truthy version
      && not (is_exactly version "policy.default")
      && not (any (same_value version) policies)
    then warning_at file ("policyVersion \"" <> to_text version <> "\" not found in /policies")
    else []

abbrev pub launch_section : Value → Value
launch_section scenario = property "launch" (property "spec" scenario)

abbrev no_description : String → Value → Bool → List LintFinding
no_description file c lacks =
    if lacks
    then error_at file ("commitment \"" <> to_text (property "id" c) <> "\" missing description")
    else []

abbrev pub lint_commitment : String → Value → Run (List LintFinding)
lint_commitment file c = do
  description ← read c "description"
  lacks ← lacks_description description
  done (no_description file c lacks)

abbrev unlisted : String → Value → Value → List LintFinding
unlisted file p ref = error_at file (
    "participant \""
    <> to_text (property "id" p)
    <> "\" agentRef \""
    <> to_text ref
    <> "\" not in catalog")

abbrev pub lint_participant : List String → String → Value → Run (List LintFinding)
lint_participant known file p =
    read p "agentRef" >>= (λ ref. done (if is_known known ref then [] else unlisted file p ref))

abbrev items_length : Items → ℕ
items_length nil = 0
items_length (cons v vs) = suc (items_length vs)

-- `list?.length ?? 0`, for a list or a text that has been walked.
abbrev pub length_of : Value → ℕ
length_of (arr items) = items_length items
length_of (str s) = length (code_units (codes s))
length_of v = 0

abbrev override_finding : String → ℕ → Value → List LintFinding
override_finding file commitments (arr items) =
    if ltb (items_length items) commitments
    then warning_at file
        "commitments override has fewer items than scenario — arrays REPLACE entirely (not merged)"
    else []
override_finding file commitments v = []

abbrev not_loaded : String → String → Run (List LintFinding)
not_loaded file reason = done (error_at file ("failed to load: " <> reason))

abbrev lint_template : String → ℕ → Load Value → Run (List LintFinding)
lint_template file commitments out_of_fuel = Ending.out_of_fuel
lint_template file commitments (thrown e) = not_loaded file e.message
lint_template file commitments (failed reason) = not_loaded file reason
lint_template file commitments (loaded template) = done (
    override_finding file commitments (
      property "commitments" (property "launch" (property "overrides" (property "spec" template)))))

module _ (tree : Tree) where
  abbrev lint_template_at : ℕ → String → String → Run (List LintFinding)
  lint_template_at commitments dir name =
      let file = tree.disk.join dir name in
      if is_yaml name then lint_template file commitments (load_yaml tree.disk file) else done []

  unfoldable pub lint_templates : ℕ → String → Run (List LintFinding)
  unfolding each load_yaml get ends_with
  lint_templates commitments version_dir =
      let dir = tree.disk.join version_dir "templates" in
      if exists tree.disk dir
      then read_dir tree dir >>= each (lint_template_at commitments dir)
      else done []

  abbrev orphan_at : List String → String → String → Run (List LintFinding)
  orphan_at included dir name = do
    let file = tree.disk.join dir name
    is_file ← stat tree tree.is_file file
    done (
        if is_file && not (contains included file)
        then warning_at file "data file is not referenced by any !include"
        else [])

  -- The fixtures are listed, and each of them is passed over.
  abbrev orphans_in : List String → String → String → Run (List LintFinding)
  orphans_in included version_dir sub =
      let dir = tree.disk.join version_dir sub in
      if exists tree.disk dir
      then read_dir tree dir
        >>= (if sub == "fixtures" then (λ names. done []) else each (orphan_at included dir))
      else done []

  unfoldable pub lint_orphans : String → Run (List LintFinding)
  unfolding each gather_all_includes
  lint_orphans version_dir =
      gather_all_includes tree version_dir
      >>= (λ included. each (orphans_in included version_dir) ("data" ∷ "fixtures" ∷ []))

  module _ (known : List String) (policies : List Value) where
    unfoldable pub lint_scenario : String → String → Value → Run (List LintFinding)
    unfolding code_units each_item get is_truthy to_text is_slug
    lint_scenario version_dir file scenario = do
      let launch = launch_section scenario
      commitments ← items_of (property "commitments" launch)
      descriptions ← each_item (lint_commitment file) commitments
      participants ← items_of (property "participants" launch)
      agents ← each_item (lint_participant known file) participants
      templates ← lint_templates (length_of (property "commitments" launch)) version_dir
      orphans ← lint_orphans version_dir
      done (
          scenario_slug_findings file (property "scenario" (property "metadata" scenario))
          ++ descriptions
          ++ policy_findings file policies (property "policyVersion" launch)
          ++ agents
          ++ templates
          ++ orphans)

    abbrev pub lint_loaded : String → String → Load Value → Run (List LintFinding)
    lint_loaded version_dir file out_of_fuel = Ending.out_of_fuel
    lint_loaded version_dir file (thrown e) = not_loaded file e.message
    lint_loaded version_dir file (failed reason) = not_loaded file reason
    lint_loaded version_dir file (loaded scenario) = lint_scenario version_dir file scenario

    unfoldable pub lint_version : String → Run (List LintFinding)
    unfolding load_yaml lint_scenario
    lint_version version_dir =
        let file = tree.disk.join version_dir "scenario.yaml" in
        lint_loaded version_dir file (load_yaml tree.disk file)

    abbrev pub lint_pack_file : String → String → Load Value → Run (List LintFinding)
    lint_pack_file pack_dir file out_of_fuel = Ending.out_of_fuel
    lint_pack_file pack_dir file (thrown e) = not_loaded file e.message
    lint_pack_file pack_dir file (failed reason) = not_loaded file reason
    lint_pack_file pack_dir file (loaded pack) = do
      metadata ← read pack "metadata"
      version_dirs ← list_scenario_version_dirs tree pack_dir
      findings ← each lint_version version_dirs
      done (pack_slug_findings file (property "slug" metadata) ++ findings)

    unfoldable pub lint_pack : String → Run (List LintFinding)
    unfolding load_yaml lint_version list_scenario_version_dirs each get to_text is_slug
    lint_pack pack_dir =
        let file = tree.disk.join pack_dir "pack.yaml" in
        lint_pack_file pack_dir file (load_yaml tree.disk file)
