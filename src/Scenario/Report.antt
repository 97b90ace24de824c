-- ===== src/Scenario/Report.antt =====
-- The report of `runValidate` of scripts/scenario/validate.ts, and what its checks share.
use examples_service.Common.{String, Bool, ◌&&◌, Option, List, [], ◌∷◌, ◌++◌}
use examples_service.Js.{Value, Fields}
use examples_service.Registry.Disk.{Disk, exists}

pub record Report : Type 0 where
  pub errors : List String
  pub warnings : List String

-- The library of JSON Schema: the reason why a schema is none, and the text of what is wrong with
-- data under a schema.
pub record Schemas : Type 0 where
  pub compile_fault : Value → Option String
  pub faults : Value → Fields → Option String

abbrev pub no_findings : Report
no_findings = record { errors = []; warnings = [] }

abbrev pub error : String → Report
error message = record { errors = message ∷ []; warnings = [] }

abbrev pub warning : String → Report
warning message = record { errors = []; warnings = message ∷ [] }

abbrev pub append : Report → Report → Report
append a b = record { errors = a.errors ++ b.errors; warnings = a.warnings ++ b.warnings }

-- `existsSync(dir) && statSync(dir).isDirectory()`
abbrev pub has_directory : Disk → String → Bool
has_directory disk dir = exists disk dir && disk.is_directory dir
