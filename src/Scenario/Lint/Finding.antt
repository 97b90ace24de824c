-- ===== src/Scenario/Lint/Finding.antt =====
-- What scripts/scenario/lint.ts sees of the disk, and its findings.
use examples_service.Common.{String, Bool, List, [], ◌∷◌, ◌++◌, Option, none, some, if◌then◌else◌}
use examples_service.Js.{Value, Items, nil, cons}
use examples_service.Registry.Disk.{Disk, exists}
use examples_service.Scenario.Ending.{Run, crashed, done, ◌>>=◌}

-- `is_entry_directory` is what `readdirSync` says of an entry, which is false of a link to a
-- directory; `fault` is the error of `readdirSync` or `statSync` at a path that it refuses.
pub record Tree : Type 0 where
  pub disk : Disk
  pub is_entry_directory : String → Bool
  pub is_file : String → Bool
  pub fault : String → String

pub data Level : Type 0 where
  error_level warn_level : Level

pub record LintFinding : Type 0 where
  pub level : Level
  pub file : String
  pub message : String

abbrev pub error_at : String → String → List LintFinding
error_at file message = record { level = error_level; file = file; message = message } ∷ []

abbrev pub warning_at : String → String → List LintFinding
warning_at file message = record { level = warn_level; file = file; message = message } ∷ []

abbrev names_or_crash : String → Option (List String) → Run (List String)
names_or_crash reason none = crashed reason
names_or_crash reason (some names) = done names

-- `fs.readdirSync(dir)`
abbrev pub read_dir : Tree → String → Run (List String)
read_dir tree dir = names_or_crash (tree.fault dir) (tree.disk.entries dir)

-- A test of `fs.statSync(path)`, which throws where there is nothing.
abbrev pub stat : Tree → (String → Bool) → String → Run Bool
stat tree test path = if exists tree.disk path then done (test path) else crashed (tree.fault path)

-- A loop that pushes findings.
unfoldable pub each : (String → Run (List LintFinding)) → List String → Run (List LintFinding)
each check [] = done []
each check (x ∷ xs) = do findings ← check x; more ← each check xs; done (findings ++ more)

unfoldable pub each_item : (Value → Run (List LintFinding)) → Items → Run (List LintFinding)
each_item check nil = done []
each_item check (cons v vs) = do
  findings ← check v
  more ← each_item check vs
  done (findings ++ more)
