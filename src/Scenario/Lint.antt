-- ===== src/Scenario/Lint.antt =====
-- `runLint` of scripts/scenario/lint.ts. What it prints is a list of lines; the lines of the packs
-- before a crash are not kept.
pub mod Finding
pub mod Discover
pub mod Pack
pub mod Laws
pub mod Sound
mod Tests
use examples_service.Common.{
  ℕ, zero, suc, String, ◌<>◌, Bool, true, false, not, List, [], ◌∷◌, ◌++◌, map, count, length, ◌⊎◌,
  inl, inr, if◌then◌else◌,
}
use examples_service.Common.Text.{show_ℕ}
use examples_service.Js.{Value, is_truthy, get}
use examples_service.Compiler.Outcome.{property}
use examples_service.Registry.Includes.{File, absent, unreadable, readable}
use examples_service.Registry.Disk.{Disk, exists, ends_with}
use examples_service.Scenario.Ending.{Run, done, ◌>>=◌}
use examples_service.Scenario.Lint.Finding.{
  Tree, Level, error_level, warn_level, LintFinding, read_dir, each,
}
use examples_service.Scenario.Lint.Discover.{list_pack_dirs}
use examples_service.Scenario.Lint.Pack.{lint_pack}

pub data Line : Type 0 where
  error_line log_line : String → Line

-- The lines that are printed, and the exit code.
pub record LintOutcome : Type 0 where
  pub printed : List Line
  pub code : ℕ

-- `if (json.policy_id) out.add(json.policy_id)`, where reading at `null` is caught.
abbrev policy_id_of : String ⊎ Value → List Value
policy_id_of (inl reason) = []
policy_id_of (inr json) = let id = property "policy_id" json in if is_truthy id then id ∷ [] else []

abbrev pub is_error_level : Level → Bool
is_error_level error_level = true
is_error_level warn_level = false

abbrev pub is_error : LintFinding → Bool
is_error finding = is_error_level finding.level

abbrev pub code_of : ℕ → ℕ
code_of zero = 0
code_of (suc errors) = 1

module _ (tree : Tree) (relative : String → String) where
  abbrev policy_id_in : File → List Value
  policy_id_in absent = []
  policy_id_in (unreadable reason) = []
  policy_id_in (readable content) = policy_id_of (tree.disk.parsers.parse_json content)

  unfoldable policies_in : String → List String → List Value
  unfolding ends_with get is_truthy
  policies_in dir [] = []
  policies_in dir (file ∷ files) =
      (if ends_with file ".json"
        then policy_id_in (tree.disk.files (tree.disk.join dir file))
        else [])
      ++ policies_in dir files

  unfoldable pub load_known_policies : String → Run (List Value)
  unfolding policies_in
  load_known_policies repo_root =
      let dir = tree.disk.join repo_root "policies" in
      if exists tree.disk dir
      then read_dir tree dir >>= (λ names. done (policies_in dir names))
      else done []

  abbrev text_at : String → LintFinding → String
  text_at tag finding = "  " <> tag <> "  " <> relative finding.file <> ": " <> finding.message

  abbrev line_at : Level → LintFinding → Line
  line_at error_level finding = error_line (text_at "FAIL" finding)
  line_at warn_level finding = log_line (text_at "WARN" finding)

  abbrev line_of : LintFinding → Line
  line_of finding = line_at finding.level finding

  abbrev last_line : List String → List LintFinding → Line
  last_line packs findings = log_line (
      "scenario:lint  "
      <> show_ℕ (length packs)
      <> " pack(s) — "
      <> show_ℕ (count is_error findings)
      <> " error(s), "
      <> show_ℕ (count (λ finding. not (is_error finding)) findings)
      <> " warning(s)")

  abbrev lint_outcome : List String → List LintFinding → LintOutcome
  lint_outcome packs findings = record {
    printed = map line_of findings ++ last_line packs findings ∷ [];
    code = code_of (count is_error findings);
  }

  abbrev pub lint_packs : List String → List Value → String → List String → Run LintOutcome
  lint_packs known policies target [] =
      done (record { printed = error_line ("no packs found under " <> target) ∷ []; code = 1 })
  lint_packs known policies target (pack ∷ packs) =
      each (lint_pack tree known policies) (pack ∷ packs)
      >>= (λ findings. done (lint_outcome (pack ∷ packs) findings))

  -- `absolute` is `path.resolve`; the root of the packs is that of the paths.
  unfoldable pub run_lint : List String → (String → String) → String → Run LintOutcome
  unfolding each lint_pack load_known_policies list_pack_dirs
  run_lint known absolute target = do
    policies ← load_known_policies (tree.disk.paths.directory tree.disk.paths.root)
    packs ← list_pack_dirs tree (absolute target)
    lint_packs known policies (absolute target) packs
