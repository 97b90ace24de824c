-- ===== src/Scenario/Lint/Sound.antt =====
-- What it means for packs to pass the linting.
use examples_service.Common.{
  ℕ, zero, suc, String, true, ◌≡◌, refl, sym, ap, ◌∙◌, subst, List, [], ◌∷◌, ◌++◌, contains, count,
  string_eq, arith,
}
use examples_service.Js.{Value}
use examples_service.Compiler.Outcome.{property}
use examples_service.Registry.Includes.{Load, out_of_fuel, thrown, failed, loaded}
use examples_service.Registry.Disk.{load_yaml}
use examples_service.Scenario.Ending.{done, items_of, read, run_bind, same_of_done}
use examples_service.Scenario.Lint.Finding.{Tree, LintFinding, each, each_item}
use examples_service.Scenario.Lint.Discover.{list_pack_dirs, list_scenario_version_dirs}
use examples_service.Scenario.Lint.Pack.{
  lint_commitment, lint_participant, lint_templates, length_of, lint_orphans, lint_scenario,
  lint_loaded, lint_version, lint_pack_file, lint_pack, launch_section, scenario_slug_findings,
}
use examples_service.Scenario.Lint.{
  is_error, code_of, LintOutcome, lint_packs, load_known_policies, run_lint,
}
use examples_service.Scenario.Lint.Laws.{
  IsClean, IsClean-parts, each-IsClean, all_items, each_item-all_items, is_commitment_described,
  is_agent_known, is_sound, entries_lem, no_failure, commitment_law, participant_law, slug_law,
}

module _ (tree : Tree) (known : List String) (policies : List Value) where
  lint_scenario-is_sound :
      (dir file : String) (scenario : Value) (findings : List LintFinding)
      → lint_scenario tree known policies dir file scenario ≡ done findings
      → IsClean findings
      → is_sound known scenario ≡ true
  unfolding lint_scenario
  lint_scenario-is_sound dir file scenario findings h clean =
      let launch = launch_section scenario in
      let (commitments, e1, h1) =
        run_bind (items_of (property "commitments" launch)) _ findings h in
      let (descriptions, e2, h2) =
        run_bind (each_item (lint_commitment file) commitments) _ findings h1 in
      let (participants, e3, h3) =
        run_bind (items_of (property "participants" launch)) _ findings h2 in
      let (agents, e4, h4) =
        run_bind (each_item (lint_participant known file) participants) _ findings h3 in
      let (templates, e5, h5) =
        run_bind (lint_templates tree (length_of (property "commitments" launch)) dir) _ findings
          h4 in
      let (orphans, e6, h6) = run_bind (lint_orphans tree dir) _ findings h5 in
      let slug = property "scenario" (property "metadata" scenario) in
      let (all5, c6) = IsClean-parts _ orphans (subst IsClean (sym (same_of_done h6)) clean) in
      let (all4, c5) = IsClean-parts _ templates all5 in
      let (all3, c4) = IsClean-parts _ agents all4 in
      let (all2, c3) = IsClean-parts (scenario_slug_findings file slug ++ descriptions) _ all3 in
      let (c1, c2) = IsClean-parts (scenario_slug_findings file slug) descriptions all2 in
      let good_slug = slug_law file slug c1 in
      let described =
        subst (λ vs. all_items is_commitment_described vs ≡ true)
          (sym (entries_lem _ commitments e1))
          (each_item-all_items (lint_commitment file) is_commitment_described (commitment_law file)
            commitments descriptions e2 c2) in
      let listed =
        subst (λ vs. all_items (is_agent_known known) vs ≡ true)
          (sym (entries_lem _ participants e3))
          (each_item-all_items (lint_participant known file) (is_agent_known known)
            (participant_law known file) participants agents e4 c4) in
      ground arith

  lint_loaded-is_sound :
      (dir file : String) (l : Load Value) (findings : List LintFinding)
      → lint_loaded tree known policies dir file l ≡ done findings
      → IsClean findings
      → (scenario : Value) × (l ≡ loaded scenario) × (is_sound known scenario ≡ true)
  lint_loaded-is_sound dir file out_of_fuel findings h clean = absurd (ground arith)
  lint_loaded-is_sound dir file (thrown e) findings h clean =
      absurd (omega (arith, no_failure h clean))
  lint_loaded-is_sound dir file (failed reason) findings h clean =
      absurd (omega (arith, no_failure h clean))
  lint_loaded-is_sound dir file (loaded scenario) findings h clean =
      (scenario, refl, lint_scenario-is_sound dir file scenario findings h clean)

  lint_pack_file-is_sound :
      (pack_dir file version_dir : String) (versions : List String) (l : Load Value)
      (findings : List LintFinding)
      → lint_pack_file tree known policies pack_dir file l ≡ done findings
      → IsClean findings
      → list_scenario_version_dirs tree pack_dir ≡ done versions
      → contains versions version_dir ≡ true
      → (scenario : Value) × (load_yaml tree.disk (tree.disk.join version_dir "scenario.yaml")
          ≡ loaded scenario)
        × (is_sound known scenario ≡ true)
  unfolding lint_version
  lint_pack_file-is_sound dir file version versions out_of_fuel findings h clean v e =
      absurd (ground arith)
  lint_pack_file-is_sound dir file version versions (thrown x) findings h clean v e =
      absurd (omega (arith, no_failure h clean))
  lint_pack_file-is_sound dir file version versions (failed reason) findings h clean v e =
      absurd (omega (arith, no_failure h clean))
  lint_pack_file-is_sound dir file version versions (loaded pack) findings h clean v e =
      let (metadata, e1, h1) = run_bind (read pack "metadata") _ findings h in
      let (versions2, e2, h2) = run_bind (list_scenario_version_dirs tree dir) _ findings h1 in
      let (more, e3, h3) =
        run_bind (each (lint_version tree known policies) versions2) _ findings h2 in
      let (c1, c2) = IsClean-parts _ more (subst IsClean (sym (same_of_done h3)) clean) in
      let same = same_of_done (sym v ∙ e2) in
      let (own, e4, c3) =
        each-IsClean (lint_version tree known policies) versions2 more version e3 c2
          (subst (λ vs. contains vs version ≡ true) same e) in
      lint_loaded-is_sound version (tree.disk.join version "scenario.yaml") _ own e4 c3

  lint_pack-is_sound :
      (pack version_dir : String) (versions : List String) (findings : List LintFinding)
      → lint_pack tree known policies pack ≡ done findings
      → IsClean findings
      → list_scenario_version_dirs tree pack ≡ done versions
      → contains versions version_dir ≡ true
      → (scenario : Value) × (load_yaml tree.disk (tree.disk.join version_dir "scenario.yaml")
          ≡ loaded scenario)
        × (is_sound known scenario ≡ true)
  unfolding lint_pack
  lint_pack-is_sound pack version_dir versions findings h clean v e =
      lint_pack_file-is_sound pack (tree.disk.join pack "pack.yaml") version_dir versions _ findings
        h clean v e

code_lem : (n : ℕ) → code_of n ≡ 0 → n ≡ 0
code_lem zero h = refl
code_lem (suc n) h = absurd (omega arith)

module _ (tree : Tree) (relative : String → String) (known : List String) where
  lint_packs-each :
      (policies : List Value) (target pack : String) (packs : List String) (outcome : LintOutcome)
      → lint_packs tree relative known policies target packs ≡ done outcome
      → outcome.code ≡ 0
      → contains packs pack ≡ true
      → (findings : List LintFinding) × (lint_pack tree known policies pack ≡ done findings)
        × IsClean findings
  lint_packs-each policies target pack [] outcome h code e = absurd (ground arith)
  lint_packs-each policies target pack (first ∷ packs) outcome h code e =
      let (findings, e1, h1) =
        run_bind (each (lint_pack tree known policies) (first ∷ packs)) _ outcome h in
      each-IsClean (lint_pack tree known policies) (first ∷ packs) findings pack e1
        (code_lem (count is_error findings)
          (ap (λ (o : LintOutcome). o.code) (same_of_done h1) ∙ code))
        e

  -- Where the linting ends with the exit code zero, every scenario of every pack that it finds has been
  -- loaded, its includes built in, and is sound: it has no slug but one in kebab case, each of its
  -- commitments has a description that is not blank, and the agent of each of its participants is in
  -- the catalog.
  pub run_lint-is_sound :
      (absolute : String → String) (target pack version_dir : String) (packs versions : List String)
      (outcome : LintOutcome)
      → list_pack_dirs tree (absolute target) ≡ done packs
      → contains packs pack ≡ true
      → list_scenario_version_dirs tree pack ≡ done versions
      → contains versions version_dir ≡ true
      → run_lint tree relative known absolute target ≡ done outcome
      → outcome.code ≡ 0
      → (scenario : Value) × (load_yaml tree.disk (tree.disk.join version_dir "scenario.yaml")
          ≡ loaded scenario)
        × (is_sound known scenario ≡ true)
  unfolding run_lint
  run_lint-is_sound absolute target pack version_dir packs versions outcome p e v f h code =
      let (policies, e1, h1) = run_bind (load_known_policies tree relative _) _ outcome h in
      let (packs2, e2, h2) = run_bind (list_pack_dirs tree (absolute target)) _ outcome h1 in
      let same = same_of_done (sym p ∙ e2) in
      let (findings, e3, clean) =
        lint_packs-each policies (absolute target) pack packs2 outcome h2 code
          (subst (λ ps. contains ps pack ≡ true) same e) in
      lint_pack-is_sound tree known policies pack version_dir versions findings e3 clean v f
